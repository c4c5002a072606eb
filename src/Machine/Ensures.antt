-- ===== src/Machine/Ensures.antt =====
-- Accesses of memory that succeed, and the total correctness of commands.
pub use unnamed.Run.Ensures.{Ensures, and_then-Ensures, Ensures-mono}
use unnamed.Prelude.{ℕ, ◌≡◌, true}
use unnamed.Machine.{Kernel, ok, load, store, accessible, write}

module _ (k : Kernel) (a : ℕ) (reach : accessible k.boot a ≡ true) where
  pub load-ok : load a k ≡ ok (k.mem a) k
  unfolding load
  load-ok = rw reach

  pub store-ok : (v : ℕ) → store a v k ≡ ok tt (record k { mem = write k.mem a v })
  unfolding store
  store-ok v = rw reach
