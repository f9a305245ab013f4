-- ===== src/Server/Addressing.antt =====
-- Who has which virtual IP: sessions, the route table and the pool agree, and no address is given
-- twice. The lemmas are the changes that the handlers of server/server.go and server/web.go make.
use mpfpv.Base.{
  ℕ, ◌≡◌, ◌≢◌, arith, List, none, some, lookup, insert, delete, lookup-insert, Distinct,
  insert-Distinct, delete-Distinct, lookup-delete,
}

pub record Addressing (vips routes pool : List (ℕ × ℕ)) (server : ℕ) : Type 0 where
  pub distinct : Distinct vips
  pub routed : (c ip : ℕ) → lookup c vips ≡ some ip → ip ≢ 0 → lookup ip routes ≡ some c
  pub owned : (c ip : ℕ) → lookup ip routes ≡ some c → (lookup c vips ≡ some ip) × (ip ≢ 0)
  pub not_server : (c ip : ℕ) → lookup c vips ≡ some ip → ip ≢ 0 → ip ≢ server
  pub pool_apart : (c d ip : ℕ) → lookup c pool ≡ some ip → lookup d pool ≡ some ip → c ≡ d
  pub pool_usable : (c ip : ℕ) → lookup c pool ≡ some ip → (ip ≢ 0) × (ip ≢ server)
  pub reserved : (c d ip : ℕ) → lookup c vips ≡ some ip → lookup d pool ≡ some ip → c ≡ d

-- An address that only `c` may have.
pub record Free (vips pool : List (ℕ × ℕ)) (server c ip : ℕ) : Type 0 where
  pub nonzero : ip ≢ 0
  pub no_server : ip ≢ server
  pub no_session : (d : ℕ) → lookup d vips ≡ some ip → d ≡ c
  pub no_pool : (d : ℕ) → lookup d pool ≡ some ip → d ≡ c

module _ {vips routes pool : List (ℕ × ℕ)} {server : ℕ}
    (a : Addressing vips routes pool server) where
  -- A new session gets a free address.
  pub assign :
      (c ip : ℕ)
      → lookup c vips ≡ none
      → Free vips pool server c ip
      → Addressing (insert c ip vips) (insert ip c routes) pool server
  assign c ip new f = record {
    distinct = insert-Distinct c ip vips a.distinct;
    routed = λ d x e n. ground (
      arith,
      lookup-insert c d ip vips,
      lookup-insert ip x c routes,
      a.routed d x,
      f.no_session d,
    );
    owned = λ d x e.
        ground
          (arith, lookup-insert c d ip vips, lookup-insert ip x c routes, a.owned d x, f.nonzero);
    not_server =
        λ d x e n. ground (arith, lookup-insert c d ip vips, a.not_server d x, f.no_server);
    pool_apart = a.pool_apart;
    pool_usable = a.pool_usable;
    reserved =
        λ d e x h k. ground (arith, lookup-insert c d ip vips, a.reserved d e x, f.no_pool e);
  }

  -- A new session gets none.
  pub assign_none : (c : ℕ) → lookup c vips ≡ none → Addressing (insert c 0 vips) routes pool server
  assign_none c new = record {
    distinct = insert-Distinct c 0 vips a.distinct;
    routed = λ d x e n. ground (arith, lookup-insert c d 0 vips, a.routed d x);
    owned = λ d x e. ground (arith, lookup-insert c d 0 vips, a.owned d x);
    not_server = λ d x e n. ground (arith, lookup-insert c d 0 vips, a.not_server d x);
    pool_apart = a.pool_apart;
    pool_usable = a.pool_usable;
    reserved =
        λ d e x h k. ground (arith, lookup-insert c d 0 vips, a.reserved d e x, a.pool_usable e x);
  }

  -- A free address is written to the pool.
  pub add_to_pool :
      (c ip : ℕ) → Free vips pool server c ip → Addressing vips routes (insert c ip pool) server
  add_to_pool c ip f = record {
    distinct = a.distinct;
    routed = a.routed;
    owned = a.owned;
    not_server = a.not_server;
    pool_apart = λ d e x h k. ground (
      arith,
      lookup-insert c d ip pool,
      lookup-insert c e ip pool,
      a.pool_apart d e x,
      f.no_pool d,
      f.no_pool e,
    );
    pool_usable = λ d x h.
        ground (arith, lookup-insert c d ip pool, a.pool_usable d x, f.nonzero, f.no_server);
    reserved =
        λ d e x h k. ground (arith, lookup-insert c e ip pool, a.reserved d e x, f.no_session d);
  }

  -- A session ends, and its route with it.
  pub end_session :
      (c ip : ℕ)
      → lookup c vips ≡ some ip
      → Addressing (delete c vips) (delete ip routes) pool server
  end_session c ip here = record {
    distinct = delete-Distinct c vips a.distinct;
    routed = λ d x e n.
        ground
          (arith, lookup-delete c d vips, lookup-delete ip x routes, a.routed d x, a.routed c ip);
    owned = λ d x e.
        ground
          (arith, lookup-delete c d vips, lookup-delete ip x routes, a.owned d x, a.routed c ip);
    not_server = λ d x e n. ground (arith, lookup-delete c d vips, a.not_server d x);
    pool_apart = a.pool_apart;
    pool_usable = a.pool_usable;
    reserved = λ d e x h k. ground (arith, lookup-delete c d vips, a.reserved d e x);
  }

  -- A pool entry is forgotten.
  pub forget_entry : (c : ℕ) → Addressing vips routes (delete c pool) server
  forget_entry c = record {
    distinct = a.distinct;
    routed = a.routed;
    owned = a.owned;
    not_server = a.not_server;
    pool_apart = λ d e x h k.
        ground (arith, lookup-delete c d pool, lookup-delete c e pool, a.pool_apart d e x);
    pool_usable = λ d x h. ground (arith, lookup-delete c d pool, a.pool_usable d x);
    reserved = λ d e x h k. ground (arith, lookup-delete c e pool, a.reserved d e x);
  }

  -- Two sessions have one address only if it is the 0 of a client that got none.
  pub unique_address :
      (c d ip : ℕ) → lookup c vips ≡ some ip → lookup d vips ≡ some ip → ip ≢ 0 → c ≡ d
  unique_address c d ip h k n = ground (arith, a.routed c ip, a.routed d ip)
