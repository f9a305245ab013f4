-- ===== src/Client/Identity.antt =====
-- client/clientid.go: the client's id, from its file or made of the host's name and the machine's id.
-- hash/fnv is the standard library's, on ASCII texts.
pub mod Stable
use Prim.Native.Nat.{bit_xor}
use mpfpv.Base.{
  ℕ, zero, suc, ◌+◌, ◌-◌, ◌*◌, ◌/◌, ◌%◌, ◌^◌, Bool, true, false, ◌==◌, ◌&&◌, ◌||◌, ltb, leb,
  if◌then◌else◌, List, [], ◌∷◌, ◌++◌, Option, none, some,
}
use mpfpv.Base.Bytes.{Bytes, u16, u32}
use mpfpv.Base.Text.{trim_space, parse_digits, parse_uint16, decimal}

abbrev pub in_range : ℕ → Bool
in_range v = leb 100 v && ltb v 65000

-- The id that a file's text names, if it names one that may be used.
abbrev pub usable : Option ℕ → Option ℕ
usable none = none
usable (some v) = if in_range v then some v else none

unfoldable pub stored_id : Option Bytes → Option ℕ
unfolding trim_space parse_digits
stored_id none = none
stored_id (some text) = usable (parse_uint16 (trim_space text))

-- FNV-1a of 32 bits, continued from `h`.
unfoldable pub fnv32a : ℕ → Bytes → ℕ
fnv32a h [] = h
fnv32a h (b ∷ s) = fnv32a (u32 (bit_xor h b * 16777619)) s

unfoldable pub generated_id : Bytes → Bytes → ℕ
unfolding fnv32a
generated_id hostname machine_id =
    u16 (u16 (fnv32a (fnv32a 2166136261 hostname) machine_id % 64900) + 100)

abbrev pub id_text : ℕ → Bytes
id_text id = decimal 4 id ++ (10 ∷ [])

-- The id, and what the file holds afterwards (`none` if it cannot be read); `save_ok` says whether its
-- folder can be made and the file written.
abbrev pub generate : Bool → Option Bytes → Bytes → Bytes → ℕ × Option Bytes
generate save_ok file hostname machine_id =
    let id = generated_id hostname machine_id in (id, if save_ok then some (id_text id) else file)

unfoldable pub load_or_generate_id : Bool → Option Bytes → Bytes → Bytes → ℕ × Option Bytes
unfolding stored_id generated_id decimal
load_or_generate_id save_ok file hostname machine_id = elim (stored_id file) [
  | some v ↦ (v, file)
  | none ↦ generate save_ok file hostname machine_id
]
