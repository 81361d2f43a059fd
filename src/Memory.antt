-- ===== src/Memory.antt =====
-- The byte buffers that the encoders write and the decoders read: an allocated array, and the
-- position `bufPos` that is passed along with it. Every write goes through `put`, which is undefined
-- behaviour past the end of the array.
mod Defs
mod Laws
mod Draw
unfoldable pub use Defs.{put, put_all}
pub use Defs.{Cursor, read}
pub use Laws.*
unfoldable pub use Draw.{draw}
pub use Draw.{
  skip, Draws, solid, length-solid, draw-append, Writes→Draws, skip-Draws, draw-moves, draw-fits,
}
