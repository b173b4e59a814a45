-- ===== src/Net/Table.antt =====
-- libv/src/net/net.c: the table of a worker from descriptors to connections, over the hash table of
-- libv/src/hash.c and the memory of the connections.
mod Values
pub use Values.{none≢some, some_eq}
use Values.{same_value, absent_value, delete-nbuckets, doubled, insert-narrow, insert_new}
use mustdb.Hmap.{
  Hmap, HmapNode, hmap_get, hmap_get_value, hmap_insert, insert_node, hmap_grow, hmap_delete,
  hmap_init, hmap_default_nbuckets,
}
use mustdb.Hash.{hmap_int_hash}
use mustdb.Hmap.Keys.{hmap_init_int, hmap_int_cmp}
use mustdb.Hmap.Buckets.{IsMap, nat-cases}
use mustdb.Hmap.Laws.{
  hmap_init-IsMap, roomy, roomy_lem, hmap_insert-IsMap, get-insert_self, get-insert_other,
}
use mustdb.Hmap.Lookup.{insert_refused, get-delete_self, get-delete_other}
use mustdb.Net.{NetConn}
use mustdb.Prelude.{
  ℕ, zero, suc, ◌-◌, ◌*◌, ◌/◌, ◌^◌, ◌<◌, ◌≡◌, ◌≢◌, refl, sym, ap, ◌∙◌, arith, Bool, true, false,
  Option, none, some, List, [], ◌∷◌, ◌++◌, length, get_or, set, get_or-set_self, get_or-set_ne,
  get_or-append_lt, get_or-append_at, leb, u64, ==_iff, Option-cases, Bool-cases, inl, inr, ◌⊎◌,
}

-- whose connection an address is
abbrev pub Holds : List (Option NetConn) → ℕ → NetConn → Type 0
Holds conns a conn = get_or conns a none ≡ some conn

-- The table is well-formed and as small as memory demands, and leads to connections that are not
-- freed and have the descriptor.
pub record IsTracked (hmap : Hmap ℕ ℕ) (conns : List (Option NetConn)) : Type 0 where
  pub well_formed : IsMap hmap
  pub narrow : hmap.nbuckets < 2 ^ 61
  pub linked :
      (fd a : ℕ)
      → hmap_get_value hmap fd ≡ some a
      → (conn : NetConn) × Holds conns a conn × (conn.fd ≡ fd)

pub Holds-lt :
    (conns : List (Option NetConn)) (a : ℕ) (conn : NetConn) → Holds conns a conn → a < length conns
Holds-lt [] a conn e = absurd (none≢some conn e)
Holds-lt (c ∷ conns) zero conn e = omega arith
Holds-lt (c ∷ conns) (suc a) conn e = let lt = Holds-lt conns a conn e in omega (arith, lt)

pub empty-IsTracked : IsTracked hmap_init_int []
unfolding hmap_init_int hmap_init hmap_int_cmp
empty-IsTracked = record {
  well_formed = (init 0).0;
  narrow = omega arith;
  linked = λ fd a found. absurd (none≢some a (sym (absent_value _ fd (init fd).1) ∙ found));
}
  where
    init : (k : ℕ) → IsMap {K = ℕ} {V = ℕ} hmap_init_int × (hmap_get {V = ℕ} hmap_init_int k ≡ none)
    init k = hmap_init-IsMap hmap_default_nbuckets hmap_int_hash hmap_int_cmp k ==_iff (omega arith)

module _ {hmap : Hmap ℕ ℕ} {conns : List (Option NetConn)} (t : IsTracked hmap conns) where
  -- a new connection, at the end of the memory
  pub insert-IsTracked :
      (granted_buckets granted : Bool) (conn : NetConn)
      → (granted_buckets ≡ true → u64 (hmap.nbuckets * 2) < 2 ^ 61)
      → hmap_get_value hmap conn.fd ≡ none
      → IsTracked
          (hmap_insert granted_buckets granted hmap conn.fd (length conns)).1
          (conns ++ (some conn ∷ []))
  insert-IsTracked granted_buckets granted conn fits new = record {
    well_formed =
        hmap_insert-IsMap hmap t.well_formed (doubled hmap t.well_formed t.narrow) granted_buckets
          granted conn.fd (length conns);
    narrow =
        insert-narrow hmap t.well_formed t.narrow granted_buckets granted conn.fd (length conns)
          fits;
    linked = λ fd a found.
        elim (insert_new hmap t.well_formed t.narrow granted_buckets granted conn.fd (length conns)
          fd a new found) [
            | inl (e, here) ↦ (conn, rw here (get_or-append_at conns (some conn) none), sym e)
            | inr before ↦
                let (c, holds, e) = t.linked fd a before in
                (
                  c,
                  get_or-append_lt conns (some conn ∷ []) a none (Holds-lt conns a c holds) ∙ holds,
                  e,
                )
          ];
  }

  -- a change of a connection that keeps its descriptor
  pub put-IsTracked :
      (a : ℕ) (old new : NetConn)
      → Holds conns a old
      → new.fd ≡ old.fd
      → IsTracked hmap (set conns a (some new))
  put-IsTracked a old new holds same = record {
    well_formed = t.well_formed;
    narrow = t.narrow;
    linked = λ fd b found.
        let (c, there, e) = t.linked fd b found in
        elim (nat-cases a b) [
          | inl eq ↦ (
            new,
            ap (λ (i : ℕ). get_or (set conns a (some new)) i none) (sym eq)
                ∙ get_or-set_self conns a (some new) none (Holds-lt conns a old holds),
            same
                ∙ ap NetConn.fd
                    (some_eq old c (sym holds ∙ ap (λ (i : ℕ). get_or conns i none) eq ∙ there))
                ∙ e,
          )
          | inr ne ↦ (c, get_or-set_ne conns a b (some new) none ne ∙ there, e)
        ];
  }

  -- freeing a connection whose descriptor leaves the table
  pub delete-IsTracked :
      (a : ℕ) (conn : NetConn)
      → Holds conns a conn
      → IsTracked (hmap_delete hmap conn.fd).1 (set conns a none)
  delete-IsTracked a conn holds = record {
    well_formed = (get-delete_self hmap t.well_formed conn.fd).2;
    narrow = rw (delete-nbuckets hmap conn.fd) t.narrow;
    linked = λ fd b found. elim (nat-cases conn.fd fd) [
      | inl e ↦ absurd (
          none≢some b (
            sym (absent_value _ conn.fd (get-delete_self hmap t.well_formed conn.fd).1)
            ∙ ap (hmap_get_value _) e
            ∙ found))
      | inr ne ↦
          kept fd b ne
            (sym (same_value _ hmap fd (get-delete_other hmap t.well_formed conn.fd fd ne)) ∙ found)
    ];
  }
    where
      kept :
          (fd b : ℕ)
          → conn.fd ≢ fd
          → hmap_get_value hmap fd ≡ some b
          → (c : NetConn) × Holds (set conns a none) b c × (c.fd ≡ fd)
      kept fd b ne found =
          let (c, there, e) = t.linked fd b found in
          (
            c,
            get_or-set_ne conns a b none none (λ eq. ne (
                  ap NetConn.fd
                    (some_eq conn c (sym holds ∙ ap (λ (i : ℕ). get_or conns i none) eq ∙ there))
                  ∙ e))
                ∙ there,
            e,
          )
