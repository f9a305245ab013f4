-- ===== src/Config/Strings.antt =====
-- config/config.go, FromConnString: what the two forms of a connection string give.
use mpfpv.Base.{
  ℕ, suc, ◌+◌, ◌≡◌, ◌≢◌, refl, arith, false, [], ◌∷◌, ◌++◌, Option, none, some, length, All,
  take-length_append, drop-append_right,
}
use mpfpv.Base.Bytes.{Bytes, has_prefix}
use mpfpv.Base.Results.{ok, err}
use mpfpv.Config.{
  bad_server_addr, Url, last_index, scheme, split_key, checked_addr, conn_config, from_conn_string,
}

-- No byte of the text is `b`.
abbrev pub Lacks : ℕ → Bytes → Type 0
Lacks b = All (λ x. x ≢ b)

last_index-Lacks : (b : ℕ) (s : Bytes) → Lacks b s → last_index b s ≡ none
last_index-Lacks b [] h = refl
last_index-Lacks b (x ∷ s) h = rw (last_index-Lacks b s h.1) (ground (arith, h.0))

last_index-append : (b : ℕ) (s t : Bytes) → Lacks b t → last_index b (s ++ b ∷ t) ≡ some (length s)
last_index-append b [] t h = rw (last_index-Lacks b t h) (ground arith)
last_index-append b (x ∷ s) t h = rw (last_index-append b s t h)

split_key-append :
    (addr key : Bytes) → addr ≢ [] → Lacks b'/' key → split_key (addr ++ b'/' ∷ key) ≡ (key, addr)
split_key-append [] key ne h = absurd (ne refl)
split_key-append (a ∷ addr) key ne h = rw (last_index-append b'/' (a ∷ addr) key h) (λ i. (
  drop-append_right (a ∷ addr) (b'/' ∷ key) (suc (length addr) + 1) 1 (omega arith) i,
  take-length_append (a ∷ addr) (b'/' ∷ key) (suc (length addr)) refl i,
))

split_key-Lacks : (s : Bytes) → Lacks b'/' s → split_key s ≡ ([], s)
split_key-Lacks s h = rw (last_index-Lacks b'/' s h, split_key)

module _ (url_parse : Bytes → Option Url) (split_host_port : Bytes → Option (Bytes × Bytes)) where
  -- A non-empty address that splits into a host and a port, a slash and a key with no slash in it give a client's
  -- configuration with that key and that address, unless the whole is in URL form.
  pub from_conn_string-slash :
      (addr key host port : Bytes)
      → addr ≢ []
      → Lacks b'/' key
      → has_prefix (addr ++ b'/' ∷ key) scheme ≡ false
      → split_host_port addr ≡ some (host, port)
      → from_conn_string url_parse split_host_port (addr ++ b'/' ∷ key)
        ≡ ok (conn_config (key, addr))
  unfolding from_conn_string
  from_conn_string-slash addr key host port ne h plain splits =
      rw (plain, split_key-append addr key ne h) (rw (splits, checked_addr))

  -- A text with no slash that does not split into a host and a port is refused, unless it is in URL form.
  pub from_conn_string_refused :
      (s : Bytes)
      → Lacks b'/' s
      → has_prefix s scheme ≡ false
      → split_host_port s ≡ none
      → from_conn_string url_parse split_host_port s ≡ err bad_server_addr
  unfolding from_conn_string
  from_conn_string_refused s h plain bad = rw (plain, split_key-Lacks s h, bad, checked_addr)
