-- ===== src/IoService/Rotation.antt =====
-- The order in which IOService::nextIO hands out the pool (src/ioservice.cpp).
use native.Mathlib.Nat.{add-zero, zero-add, mod-lt}
use asyncgi.Common.{
  ℕ, zero, suc, ◌+◌, ◌%◌, ◌<◌, ◌≡◌, refl, sym, ap, ◌∙◌, ◌≢◌, Option, some, arith, length, get_elem?,
  pos,
}
use asyncgi.IoService.Defs.{IoService, next_io, add_io, make_io_service}
use asyncgi.Net.Outbox.{size_mod}

-- The io_context that the k-th call from now returns.
unfoldable pub nth_io : ℕ → IoService → Option ℕ
unfolding next_io
nth_io zero s = (next_io s).0
nth_io (suc k) s = nth_io k (next_io s).1

nth_io-index :
    (k : ℕ) (s : IoService)
    → s.io_index + k < size_mod
    → nth_io k s ≡ get_elem? s.io_pool ((s.io_index + k) % length s.io_pool)
unfolding nth_io
nth_io-index zero s h = rw add-zero refl
nth_io-index (suc k) s h =
    nth_io-index k (next_io s).1 (unfold next_io in omega arith)
    ∙ unfold next_io in ap (λ (i : ℕ). get_elem? s.io_pool (i % length s.io_pool)) (omega arith)

pub length-add_io : (i n : ℕ) → length (add_io i n) ≡ n
unfolding add_io
length-add_io i zero = refl
length-add_io i (suc n) = ap suc (length-add_io (i + 1) n)

pub get_elem?-add_io : (i n k : ℕ) → k < n → get_elem? (add_io i n) k ≡ some (i + k)
unfolding add_io
get_elem?-add_io i zero k h = elim h [ ]
get_elem?-add_io i (suc n) zero h = ap some (omega arith)
get_elem?-add_io i (suc n) (suc k) h =
    get_elem?-add_io (i + 1) n k (omega arith) ∙ ap some (omega arith)

add_io-mod : (n k : ℕ) → 0 < n → get_elem? (add_io 0 n) (k % length (add_io 0 n)) ≡ some (k % n)
add_io-mod n k h =
    rw (length-add_io 0 n)
      (get_elem?-add_io 0 n (k % n) (omega (arith, mod-lt k h)) ∙ ap some (omega arith))

made :
    (n : ℕ) (s : IoService)
    → make_io_service (pos n) ≡ some s
    → (s.io_pool ≡ add_io 0 n) × (s.io_index ≡ 0)
unfolding make_io_service
made n s h = (ground arith, ground arith)

-- Of a service made for n threads, n positive, call number k of nextIO(), counted from zero, returns
-- io_context number k mod n, as long as ioIndex_ has not wrapped.
pub next_io_rotates :
    (n k : ℕ) (s : IoService)
    → 0 < n
    → k < size_mod
    → make_io_service (pos n) ≡ some s
    → nth_io k s ≡ some (k % n)
next_io_rotates n k s h small m =
    let (pool, index) = made n s m in
    nth_io-index k s (omega arith) ∙ rw (pool, index, zero-add) (add_io-mod n k h)

mod_ne : (x d n : ℕ) → 0 < d → d < n → x % n ≢ (x + d) % n
mod_ne x d n p q e = grind arith

-- Of a service made for n threads, as long as ioIndex_ has not wrapped, two calls of nextIO() that
-- are less than n calls apart return different io_contexts: no io_context gets a second connection
-- before each other one has got one.
pub next_io_spreads :
    (n k d : ℕ) (s : IoService)
    → 0 < d
    → d < n
    → k + d < size_mod
    → make_io_service (pos n) ≡ some s
    → nth_io k s ≢ nth_io (k + d) s
next_io_spreads n k d s p q small m e =
    let same =
      sym (next_io_rotates n k s (omega arith) (omega arith) m)
      ∙ e
      ∙ next_io_rotates n (k + d) s (omega arith) small m in
    mod_ne k d n p q (cc same)
