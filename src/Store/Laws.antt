-- ===== src/Store/Laws.antt =====
-- What a client may know of the buffer cache's interface.
use minios.Base.{ℕ, ◌≡◌, arith}
use minios.Store.{Store, contents, recycle}

-- A buffer that nothing refers to holds what the disk holds.
abbrev pub IsClean : Store → Type 0
IsClean s = (b : ℕ) → s.refcnt b ≡ 0 → contents s b ≡ s.disk b

-- Recycling a buffer loses nothing: every block reads as before.
pub contents-recycle : (s : Store) (b a : ℕ) → IsClean s → contents (recycle s b) a ≡ contents s a
unfolding contents recycle
contents-recycle s b a clean = ground (arith, clean b)
