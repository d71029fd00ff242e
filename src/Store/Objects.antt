-- ===== src/Store/Objects.antt =====
-- apps/api/src/object-store.ts: what ObjectStore reads back when batches of objects were written to it.
use open_relic.Prelude.{
  ℕ, ◌≡◌, refl, sym, ap, ◌∙◌, List, [], ◌∷◌, Option, none, some, if◌then◌else◌, Bool-cases,
  Option-cases, inl, inr, All,
}
use open_relic.Prelude.Codes.{Text, text_eq, text_eq_iff}
use open_relic.Prelude.Maps.{Map}
use open_relic.GitObject.{ObjectType}
use open_relic.Connectivity.Walk.{ObjectSource, IndexedObject, parsed_links}
use open_relic.Pack.{PackObject}
use open_relic.Pack.Unpack.{hash_object}
use open_relic.Pack.Unpack.Correct.{IsGenuine}
use open_relic.Store.Closure.{IsSource}
use open_relic.Store.Invariant.{Grows}

-- What `read` gives for each id: an object of a type, complete and with all of its chunks.
abbrev pub Rows : Type 0
Rows = Text → Option (ObjectType × List ℕ)

-- One round of the transaction in `writeBatch`: where the id is stored already, nothing is inserted.
unfoldable pub insert_object : PackObject → Rows → Rows
insert_object o rows oid = elim (rows oid) [
  | some found ↦ some found
  | none ↦ if text_eq o.oid oid then some (o.type, o.bytes) else none
]

unfoldable pub write_batch : List PackObject → Rows → Rows
write_batch [] rows = rows
write_batch (o ∷ batch) rows = write_batch batch (insert_object o rows)

unfoldable pub write_batches : List (List PackObject) → Rows → Rows
write_batches [] rows = rows
write_batches (batch ∷ batches) rows = write_batches batches (write_batch batch rows)

-- What SQLite answers to the queries of `readConnectivity` and `readIndexedObjects`, when these batches
-- were written to a store.
pub record Queries : Type 0 where
  pub connectivity :
      List (List PackObject) → ObjectSource → Text → List Text → List Text → Option (List Text)
  pub indexed : List (List PackObject) → ObjectSource → List Text → Map IndexedObject

unfoldable pub absorb : Queries → List (List PackObject) → ObjectSource → ObjectSource
absorb queries written objects = record {
  read = write_batches written objects.read;
  read_connectivity = queries.connectivity written objects;
  read_indexed_objects = queries.indexed written objects;
}

-- Where the queries told what is true of the objects, they still do behind these writes.
abbrev pub IsTruthful : (List ℕ → Text) → Queries → Type 0
IsTruthful decode queries =
    (written : List (List PackObject)) (objects : ObjectSource) (shallow : List Text)
    → IsSource decode objects shallow
    → IsSource decode (absorb queries written objects) shallow

abbrev Kept : Rows → Rows → Type 0
Kept rows later =
    (oid : Text) (found : ObjectType × List ℕ) → rows oid ≡ some found → later oid ≡ some found

insert_object-Kept : (o : PackObject) (rows : Rows) → Kept rows (insert_object o rows)
unfolding insert_object
insert_object-Kept o rows oid found e = rw (insert_object, e) refl

write_batch-Kept : (batch : List PackObject) (rows : Rows) → Kept rows (write_batch batch rows)
unfolding write_batch
write_batch-Kept [] rows oid found e = e
write_batch-Kept (o ∷ batch) rows oid found e =
    write_batch-Kept batch (insert_object o rows) oid found (insert_object-Kept o rows oid found e)

write_batches-Kept :
    (batches : List (List PackObject)) (rows : Rows) → Kept rows (write_batches batches rows)
unfolding write_batches
write_batches-Kept [] rows oid found e = e
write_batches-Kept (batch ∷ batches) rows oid found e =
    write_batches-Kept batches (write_batch batch rows) oid found
      (write_batch-Kept batch rows oid found e)

-- What is stored under an id has this id as its hash.
abbrev pub IsNamed : (List ℕ → List ℕ) → Rows → Type 0
IsNamed sha1 rows =
    (oid : Text) (type : ObjectType) (bytes : List ℕ)
    → rows oid ≡ some (type, bytes)
    → hash_object sha1 type bytes ≡ oid

abbrev pub IsAddressed : (List ℕ → List ℕ) → ObjectSource → Type 0
IsAddressed sha1 objects = IsNamed sha1 objects.read

module _ (sha1 : List ℕ → List ℕ) where
  insert_object-IsNamed :
      (o : PackObject) (rows : Rows)
      → IsGenuine sha1 o
      → IsNamed sha1 rows
      → IsNamed sha1 (insert_object o rows)
  unfolding insert_object
  insert_object-IsNamed o rows g h oid type bytes e = elim (Option-cases (rows oid)) [
    | inr (found, there) ↦ h oid type bytes (there ∙ (rw (insert_object, there) at e))
    | inl new ↦ elim (Bool-cases (text_eq o.oid oid)) [
      | inr other ↦ let bad = rw (insert_object, new, other) at e in cc
      | inl same ↦
          let row : ◌≡◌ {A = Option (ObjectType × List ℕ)} (some (o.type, o.bytes))
              (some (type, bytes)) =
            rw (insert_object, new, same) at e in
          let value : ◌≡◌ {A = ObjectType × List ℕ} (o.type, o.bytes) (type, bytes) = cc in
          ap (λ (x : ObjectType × List ℕ). hash_object sha1 x.0 x.1) (sym value)
          ∙ sym g.0
          ∙ (text_eq_iff o.oid oid).0 same
    ]
  ]

  write_batch-IsNamed :
      (batch : List PackObject) (rows : Rows)
      → All (IsGenuine sha1) batch
      → IsNamed sha1 rows
      → IsNamed sha1 (write_batch batch rows)
  unfolding write_batch
  write_batch-IsNamed [] rows g h = h
  write_batch-IsNamed (o ∷ batch) rows (g, gs) h =
      write_batch-IsNamed batch (insert_object o rows) gs (insert_object-IsNamed o rows g h)

  pub write_batches-IsNamed :
      (batches : List (List PackObject)) (rows : Rows)
      → All (λ (batch : List PackObject). All (IsGenuine sha1) batch) batches
      → IsNamed sha1 rows
      → IsNamed sha1 (write_batches batches rows)
  unfolding write_batches
  write_batches-IsNamed [] rows g h = h
  write_batches-IsNamed (batch ∷ batches) rows (g, gs) h =
      write_batches-IsNamed batches (write_batch batch rows) gs (write_batch-IsNamed batch rows g h)

-- Queries that go on answering what they did.
abbrev pub lasting : Queries
lasting = record {
  connectivity = λ written objects. objects.read_connectivity;
  indexed = λ written objects. objects.read_indexed_objects;
}

module _ (decode : List ℕ → Text) where
  pub absorb-Grows :
      (queries : Queries) (written : List (List PackObject)) (objects : ObjectSource)
      → IsTruthful decode queries
      → Grows decode objects (absorb queries written objects)
  unfolding absorb
  absorb-Grows queries written objects truthful = record {
    kept = write_batches-Kept written objects.read;
    lawful = λ shallow l. truthful written objects shallow l;
  }

  -- The rows of an object that is stored stay what they are.
  later_links :
      (s t : ObjectSource) (shallow : List Text) (oid : Text) (links : List Text)
      → Kept s.read t.read
      → parsed_links decode s shallow oid (s.read oid) ≡ some links
      → parsed_links decode t shallow oid (t.read oid) ≡ some links
  unfolding parsed_links
  later_links s t shallow oid links kept e = elim (Option-cases (s.read oid)) [
    | inl gone ↦ let bad = rw gone at e in cc
    | inr (found, there) ↦ rw (kept oid found there) (rw there at e)
  ]

  pub lasting-IsTruthful : IsTruthful decode lasting
  unfolding absorb
  lasting-IsTruthful written objects shallow (index, closures) =
      let later = absorb lasting written objects in
      let same = λ (oid : Text) (links : List Text).
        later_links objects later shallow oid links (write_batches-Kept written objects.read) in
      (
        λ batch oid x e.
            let (links, parsed, all_in) = index batch oid x e in
            (links, same oid links parsed, all_in),
        λ tip known closure e.
            let (there, settled) = closures tip known closure e in
            (
              there,
              λ oid m.
                  let (links, parsed, covered) = settled oid m in
                  (links, same oid links parsed, covered),
            ),
      )
