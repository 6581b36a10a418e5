-- ===== src/Gateway/Registry/Add.antt =====
-- `Add` of control-plane/internal/agentgw/registry.go.
use Prim.Native.String.{String}
use cron_compose.Prelude.{
  ℕ, suc, ◌<◌, nat_eq, string_eq, ◌==◌, ==_iff, ◌≡◌, refl, ap, ◌∙◌, Bool, true, false, List, [],
  Option, none, some, arith, if◌then◌else◌, Option-cases, Bool-cases, inl, inr,
}
use cron_compose.Prelude.Map.{get, put, get-put}
use cron_compose.Gateway.Registry.Live.{IsLive}
use cron_compose.Gateway.Registry.{Conn, Registry, close_done, close_previous, register, add}

pub close_done_lem :
    (c : ℕ) (r : Registry) (conn : Conn)
    → get c r.heap ≡ some conn
    → conn.done ≡ false
    → close_done c r ≡ some (record r { heap = put c (record conn { done = true }) r.heap })
unfolding close_done
close_done_lem c r conn at opened = rw (at, close_done) (rw opened refl)

abbrev pub is_done : Option Conn → Bool
is_done none = false
is_done (some conn) = conn.done

-- `Add` makes a connection that was not there, registers it for the server in place of the one that
-- was, whose stream is then closed, and changes nothing for the other servers.
pub record Added (server : String) (r : Registry) : Type 0 where
  pub conn : ℕ
  pub after : Registry
  pub returns : add server r ≡ some (conn, after)
  pub fresh : get conn r.heap ≡ none
  pub live : IsLive after
  pub conns : (s : String) → get s after.conns ≡ (if server == s then some conn else get s r.conns)
  pub closed : (c : ℕ) → get server r.conns ≡ some c → is_done (get c after.heap) ≡ true

module _ (server : String) (r : Registry) (v : IsLive r) where
  -- After the previous stream is closed, nothing but that changed.
  record Cleared : Type 0 where
    heap : Registry
    returns : close_previous (get server r.conns) r ≡ some heap
    same_conns : heap.conns ≡ r.conns
    same_next : heap.next ≡ r.next
    server_done : (c : ℕ) → get server r.conns ≡ some c → is_done (get c heap.heap) ≡ true
    open_conn :
        (s : String) (c : ℕ)
        → (server == s) ≡ false
        → get s r.conns ≡ some c
        → (conn : Conn) × (get c heap.heap ≡ some conn) × (conn.server_id ≡ s) × (conn.done ≡ false)
    registered :
        (c : ℕ) (conn : Conn)
        → get c heap.heap ≡ some conn
        → conn.done ≡ false
        → (get conn.server_id r.conns ≡ some c) × ((server == conn.server_id) ≡ false)
    allocated : (c : ℕ) (conn : Conn) → get c heap.heap ≡ some conn → c < r.next

  cleared_none : get server r.conns ≡ none → Cleared
  unfolding close_previous
  cleared_none e = record {
    heap = r;
    returns = rw e refl;
    same_conns = refl;
    same_next = refl;
    server_done = λ c h. absurd (ground (arith, e, h));
    open_conn = λ s c n h. v.open_conn s c h;
    registered = λ c conn h d. (
      v.registered c conn h d,
      ground (arith, v.registered c conn h d, e, ==_iff server conn.server_id),
    );
    allocated = v.allocated;
  }

  module _ (prev : ℕ) (conn : Conn) (at : get prev r.heap ≡ some conn)
      (mine : conn.server_id ≡ server) where
    closed_heap : List (ℕ × Conn)
    closed_heap = put prev (record conn { done = true }) r.heap

    stays_open :
        (s : String) (c : ℕ)
        → (server == s) ≡ false
        → get s r.conns ≡ some c
        → (conn : Conn) × (get c closed_heap ≡ some conn)
          × (conn.server_id ≡ s)
          × (conn.done ≡ false)
    unfolding closed_heap
    stays_open s c n h =
        let (other, there, its, opened) = v.open_conn s c h in
        elim (Bool-cases (prev == c)) [
          | inl same ↦
              absurd (ground (arith, at, there, mine, its, n, ==_iff server s, same, ==_iff prev c))
          | inr apart ↦ (
            other,
            ground (arith, get-put prev c (record conn { done = true }) r.heap, apart, there),
            its,
            opened,
          )
        ]

    stays_registered :
        get server r.conns ≡ some prev
        → (c : ℕ) (conn' : Conn) → get c closed_heap ≡ some conn'
        → conn'.done ≡ false
        → (get conn'.server_id r.conns ≡ some c) × ((server == conn'.server_id) ≡ false)
    unfolding closed_heap
    stays_registered e c conn' h d = elim (Bool-cases (prev == c)) [
      | inl same ↦
          absurd (ground (arith, h, d, same, get-put prev c (record conn { done = true }) r.heap))
      | inr apart ↦
          let reg =
            v.registered c conn'
              (ground (arith, h, apart, get-put prev c (record conn { done = true }) r.heap)) d in
          (reg, ground (arith, reg, e, apart, ==_iff server conn'.server_id, ==_iff prev c))
    ]

  cleared_some : (prev : ℕ) → get server r.conns ≡ some prev → Cleared
  unfolding close_previous closed_heap
  cleared_some prev e =
      let (conn, at, mine, opened) = v.open_conn server prev e in
      let closed : Conn = record conn { done = true } in
      record {
        heap = record r { heap = put prev closed r.heap };
        returns = ap (λ o. close_previous o r) e ∙ close_done_lem prev r conn at opened;
        same_conns = refl;
        same_next = refl;
        server_done = λ c h. ground (arith, e, h, get-put prev c closed r.heap, ==_iff prev c);
        open_conn = λ s c n h. stays_open prev conn at mine s c n h;
        registered = λ c conn' h d. stays_registered prev conn at mine e c conn' h d;
        allocated = λ c conn' h. ground (
          arith,
          v.allocated c conn',
          v.allocated prev conn at,
          h,
          get-put prev c closed r.heap,
          ==_iff prev c,
        );
      }

  cleared : Cleared
  cleared = elim (Option-cases (get server r.conns)) [
    | inl e ↦ cleared_none e
    | inr (prev, e) ↦ cleared_some prev e
  ]

  next_is_free : get r.next r.heap ≡ none
  next_is_free = elim (Option-cases (get r.next r.heap)) [
    | inl e ↦ e
    | inr (conn, e) ↦ absurd (omega (arith, v.allocated r.next conn e))
  ]

  abbrev made : Conn
  made = record { server_id = server; out = []; done = false }

  after_add : Cleared → Registry
  after_add w = record {
    conns = put server r.next r.conns;
    heap = put r.next made w.heap.heap;
    next = suc r.next;
  }

  added_open :
      (w : Cleared) (s : String) (c : ℕ)
      → get s (after_add w).conns ≡ some c
      → (conn : Conn) × (get c (after_add w).heap ≡ some conn)
        × (conn.server_id ≡ s)
        × (conn.done ≡ false)
  unfolding after_add
  added_open w s c h = elim (Bool-cases (server == s)) [
    | inl same ↦ (
      made,
      ground (
        arith,
        h,
        same,
        get-put server s r.next r.conns,
        get-put r.next c made w.heap.heap,
        ==_iff r.next c,
      ),
      (==_iff server s).0 same,
      refl,
    )
    | inr other ↦
        let (conn, at, its, opened) =
          w.open_conn s c other (ground (arith, h, other, get-put server s r.next r.conns)) in
        (
          conn,
          ground (
            arith,
            at,
            w.allocated c conn at,
            get-put r.next c made w.heap.heap,
            ==_iff r.next c,
          ),
          its,
          opened,
        )
  ]

  added_registered :
      (w : Cleared) (c : ℕ) (conn : Conn)
      → get c (after_add w).heap ≡ some conn
      → conn.done ≡ false
      → get conn.server_id (after_add w).conns ≡ some c
  unfolding after_add
  added_registered w c conn h d = elim (Bool-cases (r.next == c)) [
    | inl same ↦ ground (
      arith,
      h,
      same,
      ==_iff r.next c,
      get-put r.next c made w.heap.heap,
      get-put server conn.server_id r.next r.conns,
      ==_iff server conn.server_id,
    )
    | inr other ↦
        let (at, apart) =
          w.registered c conn (ground (arith, h, other, get-put r.next c made w.heap.heap)) d in
        ground (arith, at, apart, get-put server conn.server_id r.next r.conns)
  ]

  added_closed :
      (w : Cleared) (c : ℕ)
      → get server r.conns ≡ some c
      → is_done (get c (after_add w).heap) ≡ true
  unfolding after_add
  added_closed w c h =
      let (conn, at, its, opened) = v.open_conn server c h in
      ground (
        arith,
        w.server_done c h,
        v.allocated c conn at,
        get-put r.next c made w.heap.heap,
        ==_iff r.next c,
      )

  -- `Add` on a registry whose registered connections are exactly the open ones does not crash and
  -- leaves such a registry. It makes a connection that was not there and registers it for the server;
  -- the stream of the one it replaces is closed; nothing changes for the other servers.
  pub add-Added : Added server r
  unfolding add register after_add
  add-Added =
      let w = cleared in
      record {
        conn = r.next;
        after = after_add w;
        returns = rw (w.returns, w.same_conns, w.same_next) refl;
        fresh = next_is_free;
        live = record {
          open_conn = added_open w;
          registered = added_registered w;
          allocated = λ c conn h.
              ground
                (arith, h, w.allocated c conn, get-put r.next c made w.heap.heap, ==_iff r.next c);
        };
        conns = λ s. get-put server s r.next r.conns;
        closed = added_closed w;
      }
