-- ===== src/Gateway/Registry/Remove.antt =====
-- `Remove` and `Send` of control-plane/internal/agentgw/registry.go.
use Prim.Native.String.{String}
use cron_compose.Prelude.{
  ℕ, nat_eq, string_eq, ◌==◌, ==_iff, ◌≡◌, ◌≢◌, ◌↔◌, refl, sym, ap, ◌∙◌, Bool, true, false, not,
  ◌&&◌, Option, none, some, arith, if◌then◌else◌, Option-cases, inl, inr, Bytes,
}
use cron_compose.Prelude.Map.{get, put, del, has, get-put, get-del}
use cron_compose.Gateway.Registry.Live.{IsLive}
use cron_compose.Gateway.Registry.Add.{is_done, close_done_lem}
use cron_compose.Gateway.Registry.{
  Conn, Registry, close_done, remove, remove_current, dropped, connected, Sent, offline, send,
  send_to, send_on,
}

-- What `Remove` did: it says whether the stream was open; if so the server is offline and the stream
-- closed, and otherwise, as after a reconnect, nothing changed.
pub record Removed (c : ℕ) (conn : Conn) (r : Registry) : Type 0 where
  pub after : Registry
  pub returns : remove c r ≡ some (not conn.done, after)
  pub live : IsLive after
  pub conns :
      (s : String)
      → get s after.conns ≡ (if not conn.done && (conn.server_id == s) then none else get s r.conns)
  pub closed : is_done (get c after.heap) ≡ true
  pub unchanged : conn.done ≡ true → after ≡ r

module _ (c : ℕ) (conn : Conn) (r : Registry) (v : IsLive r) (at : get c r.heap ≡ some conn) where
  abbrev dropped_conn : Registry
  dropped_conn = record r {
    conns = del conn.server_id r.conns;
    heap = put c (record conn { done = true }) r.heap;
  }

  removes_open :
      get conn.server_id r.conns ≡ some c
      → conn.done ≡ false
      → remove c r ≡ some (true, dropped_conn)
  unfolding remove remove_current dropped
  removes_open reg opened =
      rw (at, remove)
        (ap (λ o. remove_current c r conn.server_id o) reg
          ∙ (ap
                (λ b.
                  if b
                  then dropped conn.server_id
                      (close_done c (record r { conns = del conn.server_id r.conns }))
                  else some (false, r))
                ((==_iff c c).1 refl)
              ∙ ap (dropped conn.server_id) (
                  close_done_lem c (record r { conns = del conn.server_id r.conns }) conn at
                    opened)))

  removes_closed : conn.done ≡ true → remove c r ≡ some (false, r)
  unfolding remove remove_current
  removes_closed d = rw (at, remove) (by_current (get conn.server_id r.conns) refl)
    where
      by_current :
          (o : Option ℕ)
          → get conn.server_id r.conns ≡ o
          → remove_current c r conn.server_id o ≡ some (false, r)
      by_current none e = refl
      by_current (some cur) e =
          let (other, there, its, opened) = v.open_conn conn.server_id cur e in
          ground (arith, at, there, opened, d, ==_iff cur c)

  dropped-IsLive : get conn.server_id r.conns ≡ some c → IsLive dropped_conn
  dropped-IsLive reg = record {
    open_conn = λ s i h.
        let (other, there, its, opened) =
          v.open_conn s i (ground (arith, h, get-del conn.server_id s r.conns)) in
        (
          other,
          ground (
            arith,
            there,
            its,
            opened,
            h,
            at,
            get-put c i (record conn { done = true }) r.heap,
            get-del conn.server_id s r.conns,
            ==_iff c i,
            ==_iff conn.server_id s,
          ),
          its,
          opened,
        );
    registered = λ i other h d. ground (
      arith,
      h,
      d,
      reg,
      get-put c i (record conn { done = true }) r.heap,
      ==_iff c i,
      v.registered i other,
      get-del conn.server_id other.server_id r.conns,
      ==_iff conn.server_id other.server_id,
    );
    allocated = λ i other h. ground (
      arith,
      h,
      v.allocated i other,
      v.allocated c conn at,
      get-put c i (record conn { done = true }) r.heap,
      ==_iff c i,
    );
  }

  -- `Remove` of a connection that `Add` made, on a registry whose registered connections are exactly
  -- the open ones, does not crash and leaves such a registry. It says whether the stream was open; if
  -- so the server is offline afterwards and the stream is closed, and otherwise nothing changed.
  pub remove-Removed : Removed c conn r
  remove-Removed = by_done conn.done refl
    where
      by_done : (d : Bool) → conn.done ≡ d → Removed c conn r
      by_done true d = record {
        after = r;
        returns = rw d (removes_closed d);
        live = v;
        conns = λ s. rw d refl;
        closed = rw at d;
        unchanged = λ h. refl;
      }
      by_done false d =
          let reg = v.registered c conn at d in
          record {
            after = dropped_conn;
            returns = rw d (removes_open reg d);
            live = dropped-IsLive reg;
            conns = λ s. rw d (get-del conn.server_id s r.conns);
            closed = ground (arith, get-put c c (record conn { done = true }) r.heap, ==_iff c c);
            unchanged = λ h. ground (arith, h, d);
          }

sends :
    (choose : Bool) (server : String) (m : Bytes) (r : Registry) (c : ℕ) (conn : Conn)
    → get server r.conns ≡ some c
    → get c r.heap ≡ some conn
    → send choose server m r ≡ send_on choose c m r conn
unfolding send send_to
sends choose server m r c conn e at =
    rw (e, send)
      (ap (λ o. elim o as (λ _. Sent) [ none ↦ offline | some x ↦ send_on choose c m r x ]) at)

send_on_open :
    (choose : Bool) (c : ℕ) (m : Bytes) (r : Registry) (conn : Conn)
    → conn.done ≡ false
    → send_on choose c m r conn ≢ offline
unfolding send_on
send_on_open choose c m r conn opened h = ground (arith, opened, h)

-- On a registry whose registered connections are exactly the open ones, `Send` says that the agent is
-- offline exactly if the server is not connected.
pub send_offline :
    (choose : Bool) (server : String) (m : Bytes) (r : Registry)
    → IsLive r
    → (send choose server m r ≡ offline) ↔ (connected server r ≡ false)
unfolding connected has send send_to
send_offline choose server m r v = elim (Option-cases (get server r.conns)) [
  | inl e ↦ (λ h. ground (arith, e), λ h. rw (e, send) refl)
  | inr (c, e) ↦
      let (conn, at, its, opened) = v.open_conn server c e in
      (
        λ h.
            absurd (
              send_on_open choose c m r conn opened
                (sym (sends choose server m r c conn e at) ∙ h)),
        λ h. absurd (ground (arith, e, h)),
      )
]
