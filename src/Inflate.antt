-- ===== src/Inflate.antt =====
-- apps/api/src/inflate.ts: a resumable zlib decompressor, fed by chunks.
mod Examples
pub mod Huffman
pub mod Adler
pub mod Reader
pub mod Decoding
pub mod Steps
pub mod Push
pub mod Progress
pub mod Termination
pub mod Keeping
pub mod Tails
pub mod Alphabet
