-- ===== src/Net/Link/Invariant.antt =====
-- What holds of the write path in every reachable state of a link.
use asyncgi.Common.{
  ℕ, ◌+◌, ◌<◌, ◌≡◌, refl, sym, ap, ◌∙◌, ◌⊎◌, inl, inr, Bool, true, false, List, [], ◌∷◌, ◌++◌,
  append-nil, append_assoc, arith, ◌==◌, Bool-cases, Bytes, length, is_empty, take, length-append,
  take-length, sum, sum-append, All, All-append,
}
use asyncgi.Net.Outbox.{Outbox, size_mod, add_size, sub_size}
use asyncgi.Net.Transport.{Reaction, push, complete, request_close, settle, flush}

-- A write under way is empty, or it is the one that bytesToWrite_ counts.
abbrev pub IsCounted : ℕ → ℕ → Type 0
IsCounted bytes n = (n ≡ 0) ⊎ (n ≡ bytes)

abbrev pub unsent_bytes : Outbox → Bytes
unsent_bytes o = take o.bytes_to_write o.write_buffer ++ o.next_write_buffer

pub record Settled (o : Outbox) (in_flight : List ℕ) (wire sent : Bytes) : Type 0 where
  pub counted : sum in_flight ≡ o.bytes_to_write
  pub one_write : All (IsCounted o.bytes_to_write) in_flight
  pub viewed : 0 < o.bytes_to_write → o.bytes_to_write ≡ length o.write_buffer
  pub small : o.bytes_to_write < size_mod
  pub next_small : length o.next_write_buffer < size_mod
  pub conserved : wire ++ unsent_bytes o ≡ sent

pub record Inv (o : Outbox) (in_flight : List ℕ) (wire sent : Bytes) : Type 0 where
  pub settled : Settled o in_flight wire sent
  -- Nothing waits behind no write.
  pub waits : o.bytes_to_write ≡ 0 → o.next_write_buffer ≡ []

abbrev pub InvR : Reaction → List ℕ → Bytes → Bytes → Type 0
InvR r in_flight wire sent = Inv r.outbox (in_flight ++ r.writes) wire sent

All-zero : (b : ℕ) (ns : List ℕ) → sum ns ≡ 0 → All (IsCounted b) ns
All-zero b [] h = tt
All-zero b (n ∷ ns) h = (inl (omega arith), All-zero b ns (omega arith))

pub All-middle {ℓ κ} :
    {A : Type ℓ} (P : A → Type κ) (xs : List A) (a : A) (ys : List A)
    → All P (xs ++ a ∷ ys)
    → P a × All P (xs ++ ys)
All-middle P [] a ys h = h
All-middle P (x ∷ xs) a ys h = let (p, rest) = All-middle P xs a ys h.1 in (p, (h.0, rest))

pub empty-nil {ℓ} : {A : Type ℓ} (xs : List A) → is_empty xs ≡ true → xs ≡ []
empty-nil [] h = refl
empty-nil (x ∷ xs) h = ground arith

pub take_all {ℓ} : {A : Type ℓ} (n : ℕ) (xs : List A) → n ≡ length xs → take n xs ≡ xs
take_all n xs h = rw h (take-length xs)

-- With no byte under way, all that waits becomes the write under way.
flush-Inv :
    (o : Outbox) (fl : List ℕ) (wire sent bytes : Bytes)
    → sum fl ≡ 0
    → o.bytes_to_write ≡ 0
    → length bytes < size_mod
    → wire ++ bytes ≡ sent
    → InvR (flush o bytes) fl wire sent
flush-Inv o fl wire sent bytes none_left idle fits all = record {
  settled = record {
    counted = omega (arith, sum-append fl (length bytes ∷ []));
    one_write =
        let b = add_size o.bytes_to_write (length bytes) in
        All-append (IsCounted b) fl (length bytes ∷ []) (All-zero b fl none_left)
          (inr (omega arith), tt);
    viewed = λ _. omega arith;
    small = omega arith;
    next_small = omega arith;
    conserved =
        rw (append-nil, take_all (add_size o.bytes_to_write (length bytes)) bytes (omega arith))
          all;
  };
  waits = λ _. refl;
}

quiet-Inv :
    (o : Outbox) (fl : List ℕ) (wire sent : Bytes)
    → Settled o fl wire sent
    → (o.bytes_to_write ≡ 0 → o.next_write_buffer ≡ [])
    → Inv o (fl ++ []) wire sent
quiet-Inv o fl wire sent h idle = rw append-nil (record { settled = h; waits = idle })

pub flag-Settled :
    (o : Outbox) (fl : List ℕ) (wire sent : Bytes) (asked : Bool)
    → Settled o fl wire sent
    → Settled (record o { disconnect_requested = asked }) fl wire sent
flag-Settled o fl wire sent asked h = record {
  counted = h.counted;
  one_write = h.one_write;
  viewed = h.viewed;
  small = h.small;
  next_small = h.next_small;
  conserved = h.conserved;
}

pub unsent_idle : (o : Outbox) → o.bytes_to_write ≡ 0 → unsent_bytes o ≡ o.next_write_buffer
unsent_idle o idle = rw idle refl

settle-Inv :
    (o : Outbox) (fl : List ℕ) (wire sent : Bytes)
    → Settled o fl wire sent
    → InvR (settle o) fl wire sent
settle-Inv o fl wire sent h = elim (Bool-cases (o.bytes_to_write == 0)) [
  | inr busy ↦ rw busy (quiet-Inv o fl wire sent h (λ idle. absurd (ground arith)))
  | inl idle ↦ elim (Bool-cases (is_empty o.next_write_buffer)) [
    | inr more ↦
        rw (idle, more)
          (flush-Inv o fl wire sent _ (ground (arith, h.counted)) (ground arith)
            (rw append-nil h.next_small)
            (rw append-nil (rw (unsent_idle o (ground arith)) at h.conserved)))
    | inl none_waits ↦
        let nil = empty-nil o.next_write_buffer none_waits in
        elim (Bool-cases o.disconnect_requested) [
          | inl asked ↦
              rw (idle, none_waits, asked)
                (quiet-Inv _ fl wire sent (flag-Settled o fl wire sent false h) (λ _. nil))
          | inr not_asked ↦
              rw (idle, none_waits, not_asked)
                (quiet-Inv _ fl wire sent (flag-Settled o fl wire sent false h) (λ _. nil))
        ]
  ]
]

pub push-Inv :
    (d : Bytes) (o : Outbox) (fl : List ℕ) (wire sent : Bytes)
    → length o.next_write_buffer + length d < size_mod
    → Inv o fl wire sent
    → InvR (push d o) fl wire (sent ++ d)
push-Inv d o fl wire sent fits h = elim (Bool-cases (o.bytes_to_write == 0)) [
  | inl idle ↦ rw idle (
      flush-Inv o fl wire (sent ++ d) _ (ground (arith, h.settled.counted)) (ground arith)
        (omega (arith, length-append o.next_write_buffer d))
        (sym (append_assoc wire o.next_write_buffer d)
          ∙ ap (λ x. x ++ d) (rw (unsent_idle o (ground arith)) at h.settled.conserved)))
  | inr busy ↦ rw busy (
      quiet-Inv _ fl wire (sent ++ d)
        (record {
          counted = h.settled.counted;
          one_write = h.settled.one_write;
          viewed = h.settled.viewed;
          small = h.settled.small;
          next_small = omega (arith, length-append o.next_write_buffer d);
          conserved = rw (← h.settled.conserved) (simp append_assoc);
        })
        (λ idle. absurd (ground arith)))
]

pub request_close-Inv :
    (o : Outbox) (fl : List ℕ) (wire sent : Bytes)
    → Inv o fl wire sent
    → InvR (request_close o) fl wire sent
request_close-Inv o fl wire sent h = elim (Bool-cases (o.bytes_to_write == 0)) [
  | inl idle ↦
      rw idle (quiet-Inv _ fl wire sent (flag-Settled o fl wire sent false h.settled) h.waits)
  | inr busy ↦
      rw busy (quiet-Inv _ fl wire sent (flag-Settled o fl wire sent true h.settled) h.waits)
]

module _ (o : Outbox) (xs ys : List ℕ) (n left : ℕ) (wire sent : Bytes) where
  pub empty_write-Settled :
      Settled o (xs ++ n ∷ ys) wire sent
      → n ≡ 0
      → left ≡ o.bytes_to_write
      → Settled (record o { bytes_to_write = left }) (xs ++ ys) (wire ++ take n o.write_buffer) sent
  empty_write-Settled h zero_size kept = record {
    counted = omega (arith, h.counted, sum-append xs (n ∷ ys), sum-append xs ys);
    one_write = rw kept (All-middle _ xs n ys h.one_write).1;
    viewed = rw kept h.viewed;
    small = rw kept h.small;
    next_small = h.next_small;
    conserved = rw (kept, zero_size, append-nil) h.conserved;
  }

  whole_write-Settled :
      Settled o (xs ++ n ∷ ys) wire sent
      → n ≡ o.bytes_to_write
      → left ≡ 0
      → Settled (record o { bytes_to_write = left }) (xs ++ ys) (wire ++ take n o.write_buffer) sent
  whole_write-Settled h whole done = record {
    counted = omega (arith, h.counted, sum-append xs (n ∷ ys), sum-append xs ys);
    one_write =
        All-zero left (xs ++ ys)
          (omega (arith, h.counted, sum-append xs (n ∷ ys), sum-append xs ys));
    viewed = λ p. absurd (omega arith);
    small = omega arith;
    next_small = h.next_small;
    conserved = rw (done, whole, append_assoc) h.conserved;
  }

pub complete-Settled :
    (o : Outbox) (xs ys : List ℕ) (n : ℕ) (wire sent : Bytes)
    → Inv o (xs ++ n ∷ ys) wire sent
    → Settled
        (record o { bytes_to_write = sub_size o.bytes_to_write n })
        (xs ++ ys)
        (wire ++ take n o.write_buffer)
        sent
complete-Settled o xs ys n wire sent h =
    elim (All-middle (IsCounted o.bytes_to_write) xs n ys h.settled.one_write).0 [
      | inl zero_size ↦
          empty_write-Settled o xs ys n _ wire sent h.settled zero_size
            (omega (arith, h.settled.small))
      | inr whole ↦
          whole_write-Settled o xs ys n _ wire sent h.settled whole (omega (arith, h.settled.small))
    ]

pub complete-Inv :
    (o : Outbox) (xs ys : List ℕ) (n : ℕ) (wire sent : Bytes)
    → Inv o (xs ++ n ∷ ys) wire sent
    → InvR (complete n o) (xs ++ ys) (wire ++ take n o.write_buffer) sent
complete-Inv o xs ys n wire sent h =
    settle-Inv _ (xs ++ ys) _ sent (complete-Settled o xs ys n wire sent h)
