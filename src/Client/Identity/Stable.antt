-- ===== src/Client/Identity/Stable.antt =====
-- client/clientid.go: the id's range, and that an id once saved is the one that is loaded.
use native.Mathlib.Nat.{pow-suc}
use mpfpv.Base.{
  ℕ, zero, suc, ◌+◌, ◌-◌, ◌*◌, ◌/◌, ◌%◌, ◌^◌, ◌≤◌, ◌<◌, ◌≡◌, ◌≢◌, refl, ap, ◌∙◌, arith, inl, inr,
  Bool, true, false, ltb, Bool-cases, Option-cases, [], ◌∷◌, ◌++◌, Option, none, some, All,
}
use mpfpv.Base.Bytes.{Bytes}
use mpfpv.Base.Text.{is_space, trim_right, trim_space, parse_digits, parse_uint16, decimal}
use mpfpv.Client.Identity.{stored_id, generated_id, id_text, load_or_generate_id}

abbrev IsId : ℕ → Type 0
IsId id = (100 ≤ id) × (id < 65000)

generated_id-IsId : (hostname machine_id : Bytes) → IsId (generated_id hostname machine_id)
unfolding generated_id
generated_id-IsId hostname machine_id = omega arith

stored_id-IsId : (file : Option Bytes) (v : ℕ) → stored_id file ≡ some v → IsId v
unfolding stored_id
stored_id-IsId none v e = cc
stored_id-IsId (some text) v e = elim (Option-cases (parse_uint16 (trim_space text))) [
  | inl bad ↦ let gone = rw bad at e in cc
  | inr (n, parsed) ↦ let kept = rw parsed at e in ground arith
]

-- Whatever the file holds, the id is at least 100 and below 65000.
pub load_or_generate_id_range :
    (save_ok : Bool) (file : Option Bytes) (hostname machine_id : Bytes)
    → let r = load_or_generate_id save_ok file hostname machine_id in (100 ≤ r.0) × (r.0 < 65000)
unfolding load_or_generate_id
load_or_generate_id_range save_ok file hostname machine_id = elim (Option-cases (stored_id file)) [
  | inl new ↦ rw (new, load_or_generate_id) (generated_id-IsId hostname machine_id)
  | inr (v, old) ↦ rw (old, load_or_generate_id) (stored_id-IsId file v old)
]

abbrev IsDigit : ℕ → Type 0
IsDigit b = (b'0' ≤ b) × (b ≤ b'9')

All-append : (P : ℕ → Type 0) (xs ys : Bytes) → All P xs → All P ys → All P (xs ++ ys)
All-append P [] ys h k = k
All-append P (x ∷ xs) ys h k = (h.0, All-append P xs ys h.1 k)

decimal-IsDigit : (rounds n : ℕ) → All IsDigit (decimal rounds n)
unfolding decimal
decimal-IsDigit zero n = omega arith
decimal-IsDigit (suc rounds) n = elim (Bool-cases (ltb n 10)) [
  | inl one ↦ rw one (ground arith)
  | inr more ↦ rw more (
      All-append IsDigit (decimal rounds (n / 10)) _ (decimal-IsDigit rounds (n / 10))
        (omega arith))
]

trim_right-digits : (s : Bytes) → All IsDigit s → trim_right (s ++ (10 ∷ [])) ≡ s
trim_right-digits [] h = refl
trim_right-digits (b ∷ []) h = ground arith
trim_right-digits (b ∷ x ∷ s) h = rw (trim_right-digits (x ∷ s) h.1)

trim_space-digits :
    (b : ℕ) (s : Bytes) → All IsDigit (b ∷ s) → trim_space ((b ∷ s) ++ (10 ∷ [])) ≡ b ∷ s
unfolding trim_space
trim_space-digits b s h =
    let digit : is_space b ≡ false = ground arith in rw digit (trim_right-digits (b ∷ s) h)

parse_digits-append :
    (s : Bytes) (d n m : ℕ)
    → parse_digits s n ≡ some m
    → IsDigit d
    → m * 10 + (d - b'0') ≤ 65535
    → parse_digits (s ++ (d ∷ [])) n ≡ some (m * 10 + (d - b'0'))
unfolding parse_digits
parse_digits-append [] d n m e h fits = ground arith
parse_digits-append (b ∷ s) d n m e h fits =
    ground (arith, parse_digits-append s d (n * 10 + (b - b'0')) m)

parse-decimal :
    (rounds n : ℕ) → n < 10 ^ suc rounds → n ≤ 65535 → parse_digits (decimal rounds n) 0 ≡ some n
unfolding parse_digits decimal
parse-decimal zero n h fits = ground arith
parse-decimal (suc rounds) n h fits = elim (Bool-cases (ltb n 10)) [
  | inl one ↦ rw one (ground arith)
  | inr more ↦ rw more (
      parse_digits-append (decimal rounds (n / 10)) (b'0' + n % 10) 0 (n / 10)
        (parse-decimal rounds (n / 10) (omega (arith, pow-suc 10 (suc rounds))) (omega arith))
        (omega arith) (omega arith)
      ∙ ap some (omega arith))
]

parse_uint16-digits : (s : Bytes) → s ≢ [] → parse_uint16 s ≡ parse_digits s 0
parse_uint16-digits [] ne = absurd (ne refl)
parse_uint16-digits (b ∷ s) ne = refl

append-ne-nil : (s : Bytes) (b : ℕ) → s ++ (b ∷ []) ≢ []
append-ne-nil [] b e = cc
append-ne-nil (x ∷ s) b e = cc

decimal-ne-nil : (rounds n : ℕ) → decimal rounds n ≢ []
unfolding decimal
decimal-ne-nil zero n = λ e. cc
decimal-ne-nil (suc rounds) n = elim (Bool-cases (ltb n 10)) [
  | inl one ↦ rw one (λ e. cc)
  | inr more ↦ rw more (append-ne-nil (decimal rounds (n / 10)) (b'0' + n % 10))
]

trim_space_line : (s : Bytes) → s ≢ [] → All IsDigit s → trim_space (s ++ (10 ∷ [])) ≡ s
trim_space_line [] ne h = absurd (ne refl)
trim_space_line (b ∷ s) ne h = trim_space-digits b s h

stored_id-id_text : (id : ℕ) → IsId id → stored_id (some (id_text id)) ≡ some id
unfolding stored_id
stored_id-id_text id (low, high) =
    rw
      (
        trim_space_line (decimal 4 id) (decimal-ne-nil 4 id) (decimal-IsDigit 4 id),
        parse_uint16-digits (decimal 4 id) (decimal-ne-nil 4 id),
        parse-decimal 4 id (omega arith) (omega arith),
      )
      (ground arith)

loaded :
    (save_ok : Bool) (file : Option Bytes) (v : ℕ) (hostname machine_id : Bytes)
    → stored_id file ≡ some v
    → load_or_generate_id save_ok file hostname machine_id ≡ (v, file)
unfolding load_or_generate_id
loaded save_ok file v hostname machine_id e = rw (e, load_or_generate_id)

made :
    (file : Option Bytes) (hostname machine_id : Bytes)
    → stored_id file ≡ none
    → let id = generated_id hostname machine_id in
      load_or_generate_id true file hostname machine_id ≡ (id, some (id_text id))
unfolding load_or_generate_id
made file hostname machine_id e = rw (e, load_or_generate_id)

-- An id that was loaded, or made and saved, is the id of every later start, whatever the host and the
-- machine are called then, and the file stays as it is.
pub load_or_generate_id_stable :
    (save_ok : Bool) (file : Option Bytes) (hostname machine_id hostname' machine_id' : Bytes)
    → let r = load_or_generate_id true file hostname machine_id in
      load_or_generate_id save_ok r.1 hostname' machine_id' ≡ r
load_or_generate_id_stable save_ok file hostname machine_id hostname' machine_id' =
    let id = generated_id hostname machine_id in
    elim (Option-cases (stored_id file)) [
      | inl new ↦ rw (made file hostname machine_id new) (
          loaded save_ok (some (id_text id)) id hostname' machine_id'
            (stored_id-id_text id (generated_id-IsId hostname machine_id)))
      | inr (v, old) ↦
          rw (loaded true file v hostname machine_id old)
            (loaded save_ok file v hostname' machine_id' old)
    ]
