-- ===== src/ClientService/Counts.antt =====
-- How many of a log's calls, and of the pending requests, pass a test.
use asyncgi.Common.{
  ℕ, ◌+◌, ◌≡◌, Bool, true, false, List, [], ◌∷◌, ◌++◌, arith, ltb, ◌==◌, if◌then◌else◌,
}
use asyncgi.ClientService.Defs.{
  ClientCall, stop_queue, launch_queue, start_timer, stop_timer, connect, report, handle, Pending,
}

abbrev pub is_stop {ℓ} : {V : Type ℓ} → ClientCall V → Bool
is_stop (stop_queue q) = true
is_stop (launch_queue q) = false
is_stop (start_timer id t) = false
is_stop (stop_timer id) = false
is_stop (connect id e r) = false
is_stop (report e m) = false
is_stop (handle id r) = false

abbrev pub is_launch {ℓ} : {V : Type ℓ} → ClientCall V → Bool
is_launch (launch_queue q) = true
is_launch (stop_queue q) = false
is_launch (start_timer id t) = false
is_launch (stop_timer id) = false
is_launch (connect id e r) = false
is_launch (report e m) = false
is_launch (handle id r) = false

abbrev pub is_start_of {ℓ} : {V : Type ℓ} → ℕ → ClientCall V → Bool
is_start_of i (start_timer id t) = id == i
is_start_of i (stop_queue q) = false
is_start_of i (launch_queue q) = false
is_start_of i (stop_timer id) = false
is_start_of i (connect id e r) = false
is_start_of i (report e m) = false
is_start_of i (handle id r) = false

abbrev pub is_end_of {ℓ} : {V : Type ℓ} → ℕ → ClientCall V → Bool
is_end_of i (stop_timer id) = id == i
is_end_of i (start_timer id t) = false
is_end_of i (stop_queue q) = false
is_end_of i (launch_queue q) = false
is_end_of i (connect id e r) = false
is_end_of i (report e m) = false
is_end_of i (handle id r) = false

abbrev pub is_handler_of {ℓ} : {V : Type ℓ} → ℕ → ClientCall V → Bool
is_handler_of i (handle id r) = id == i
is_handler_of i (start_timer id t) = false
is_handler_of i (stop_timer id) = false
is_handler_of i (stop_queue q) = false
is_handler_of i (launch_queue q) = false
is_handler_of i (connect id e r) = false
is_handler_of i (report e m) = false

-- How many calls pass a test.
abbrev pub count {ℓ} : {A : Type ℓ} → (A → Bool) → List A → ℕ
count p [] = 0
count p (x ∷ rest) = (if p x then 1 else 0) + count p rest

pub count-append {ℓ} :
    {A : Type ℓ} (p : A → Bool) (xs ys : List A) → count p (xs ++ ys) ≡ count p xs + count p ys
count-append p [] ys = omega arith
count-append p (x ∷ xs) ys = omega (arith, count-append p xs ys)

-- Whether request `i` has been made, and how many handlers of it are still to be called.
abbrev pub made_one : ℕ → ℕ → ℕ
made_one i next = if ltb i next then 1 else 0

abbrev pub is_pending : ℕ → Pending → Bool
is_pending i x = x.id == i
