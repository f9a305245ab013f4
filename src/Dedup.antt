-- ===== src/Dedup.antt =====
-- protocol/dedup.go: sliding-window deduplication of sequence numbers, one window for each client.
-- The locks make each call one step, so a call is a function from the state to a result and the next
-- state. `none` entries of the source's map are absent keys of an association list.
pub mod Bitmap
pub mod Window
pub mod Refine
pub mod Delivery
pub mod Clients
mod Tests
use mpfpv.Base.{
  ℕ, zero, suc, ◌+◌, ◌-◌, ◌/◌, ◌%◌, ◌^◌, Bool, true, false, ◌==◌, leb, if◌then◌else◌, List, [], ◌∷◌,
  Option, none, some, length, get_or, set, replicate, lookup, insert, delete,
}
use mpfpv.Base.Bits.{set_digit, clear_digit, has_digit}
use mpfpv.Base.Bytes.{u32}
use mpfpv.Base.Int.{ℤ, pos, negsuc, ◌+ℤ◌, ◌-ℤ◌, ltb_ℤ}
use mpfpv.Protocol.Wire.{default_dedup_window}

pub record ClientState : Type 0 where
  pub max_seq : ℕ
  pub bitmap : List ℕ
  pub inited : Bool

pub record Deduplicator : Type 0 where
  pub window_size : ℕ
  pub clients : List (ℕ × ClientState)

-- An `int` argument; `uint32` cuts it.
abbrev window_of : ℤ → ℕ
window_of (pos n) = if n == 0 then default_dedup_window else u32 n
window_of (negsuc n) = default_dedup_window

unfoldable pub new_deduplicator : ℤ → Deduplicator
new_deduplicator window_size = record { window_size = window_of window_size; clients = [] }

-- A write of the bit in slot `i` of the bitmap, and a read of it.
abbrev pub set_slot : List ℕ → ℕ → List ℕ
set_slot bm i = set bm (i / 64) (set_digit (get_or bm (i / 64) 0) (i % 64))

abbrev pub clear_slot : List ℕ → ℕ → List ℕ
clear_slot bm i = set bm (i / 64) (clear_digit (get_or bm (i / 64) 0) (i % 64))

abbrev pub slot : List ℕ → ℕ → Bool
slot bm i = has_digit (get_or bm (i / 64) 0) (i % 64)

unfoldable pub set_bit : List ℕ → ℕ → ℕ → List ℕ
set_bit bm seq w = set_slot bm (seq % w)

unfoldable pub clear_bit : List ℕ → ℕ → ℕ → List ℕ
clear_bit bm seq w = clear_slot bm (seq % w)

unfoldable pub get_bit : List ℕ → ℕ → ℕ → Bool
get_bit bm seq w = slot bm (seq % w)

-- `for i := range cs.bitmap { cs.bitmap[i] = 0 }`
unfoldable pub clear_all : List ℕ → List ℕ
clear_all [] = []
clear_all (x ∷ bm) = 0 ∷ clear_all bm

-- The rounds `i`, `i + 1`, … of the loop that clears the slots between `max` and the new sequence
-- number, `rounds` of them.
unfoldable pub clear_ahead : ℕ → List ℕ → ℕ → ℕ → ℕ → List ℕ
clear_ahead zero bm max i w = bm
clear_ahead (suc rounds) bm max i w =
    clear_ahead rounds (clear_bit bm (u32 (max + u32 i)) w) max (i + 1) w

-- The signed distance from `max` to `seq`, wrapped into 32 bits.
unfoldable pub seq_diff : ℕ → ℕ → ℤ
seq_diff seq max =
    let diff = pos seq -ℤ pos max in
    if ltb_ℤ (pos (2 ^ 31)) diff
    then diff -ℤ pos (2 ^ 32)
    else if ltb_ℤ diff (negsuc (2 ^ 31 - 1))
    then diff +ℤ pos (2 ^ 32)
    else diff

-- A new highest sequence number over the given bitmap.
abbrev advance : List ℕ → ℕ → ℕ → ClientState
advance bm seq w = record { max_seq = seq; bitmap = set_bit bm seq w; inited = true }

-- What is done with a distance: ahead of the highest number, equal to it, or behind it.
unfoldable pub receive : ClientState → ℕ → ℕ → ℤ → Bool × ClientState
unfolding set_bit get_bit clear_all clear_ahead
receive cs seq w (pos zero) = (true, cs)
receive cs seq w (pos (suc n)) =
    let shift = suc n in
    let cleared =
      if leb w shift then clear_all cs.bitmap else clear_ahead shift cs.bitmap cs.max_seq 1 w in
    (false, advance cleared seq w)
receive cs seq w (negsuc n) =
    let behind = suc n in
    if leb w behind
    then (false, advance (clear_all cs.bitmap) seq w)
    else if get_bit cs.bitmap seq w
    then (true, cs)
    else (false, record cs { bitmap = set_bit cs.bitmap seq w })

-- The part of IsDuplicate under the client's own lock.
unfoldable pub check_seq : ClientState → ℕ → ℕ → Bool × ClientState
unfolding receive seq_diff
check_seq cs seq w =
    if cs.inited
    then receive cs seq w (seq_diff seq cs.max_seq)
    else (false, advance cs.bitmap seq w)

abbrev pub new_client : ℕ → ClientState
new_client w = record { max_seq = 0; bitmap = replicate (u32 (w + 63) / 64) 0; inited = false }

abbrev pub client_state : Deduplicator → ℕ → ClientState
client_state d client_id = elim (lookup client_id d.clients) [
  | none ↦ new_client d.window_size
  | some cs ↦ cs
]

unfoldable pub is_duplicate : Deduplicator → ℕ → ℕ → Bool × Deduplicator
is_duplicate d client_id seq =
    let (dup, cs) = check_seq (client_state d client_id) seq d.window_size in
    (dup, record d { clients = insert client_id cs d.clients })

unfoldable pub reset : Deduplicator → ℕ → Deduplicator
reset d client_id = record d { clients = delete client_id d.clients }
