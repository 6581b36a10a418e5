-- ===== src/Gateway/Pending/First.antt =====
-- `Open` and `Resolve` of control-plane/internal/agentgw/pending.go: a request gets its first result.
use cron_compose.Prelude.{
  ℕ, ◌<◌, nat_eq, bytes_eq, ◌==◌, ==_iff, ◌≡◌, refl, sym, subst, Bool, true, false, List, [], ◌∷◌,
  Option, none, some, if◌then◌else◌, Bytes, arith, Bool-cases, inl, inr,
}
use cron_compose.Prelude.Map.{get, put, get-put}
use cron_compose.Gateway.Pending.{Sub, Pending, open_request, delivered, resolve_at, resolve}

-- The results that an agent sends, in their order, with what Go chooses for each.
unfoldable pub resolve_all : List (Bool × Bytes × Bytes) → Pending → Pending
resolve_all [] p = p
resolve_all ((choose, id, res) ∷ results) p = resolve_all results (resolve choose (id, res) p)

-- The first result for a request.
abbrev pub first_for : Bytes → List (Bool × Bytes × Bytes) → Option Bytes
first_for id [] = none
first_for id ((choose, i, res) ∷ results) = if i == id then some res else first_for id results

abbrev pub or_else : Option Bytes → Option Bytes → Option Bytes
or_else none b = b
or_else (some v) b = some v

-- An open request: its mailbox is its own, is not abandoned, and holds this.
record Waits (id : Bytes) (c : ℕ) (held : Option Bytes) (p : Pending) : Type 0 where
  here : get id p.subs ≡ some c
  box : get c p.heap ≡ some (record { ch = held; done = false })
  alone : (i : Bytes) → get i p.subs ≡ some c → (i == id) ≡ true

resolve-mine :
    (choose : Bool) (id res : Bytes) (c : ℕ) (held : Option Bytes) (p : Pending)
    → Waits id c held p
    → Waits id c (or_else held (some res)) (resolve choose (id, res) p)
unfolding resolve resolve_at delivered
resolve-mine choose id res c held p w = rw w.here (at_box held w)
  where
    at_box :
        (h : Option Bytes)
        → Waits id c h p
        → Waits id c (or_else h (some res)) (resolve_at choose res p (some c))
    at_box none v =
        rw (v.box, resolve_at)
          (record {
            here = v.here;
            box =
                ground
                  (arith, get-put c c (record { ch = some res; done = false }) p.heap, ==_iff c c);
            alone = v.alone;
          })
    at_box (some old) v =
        rw (v.box, resolve_at)
          (record {
            here = v.here;
            box =
                ground
                  (arith, get-put c c (record { ch = some old; done = false }) p.heap, ==_iff c c);
            alone = v.alone;
          })

resolve-other :
    (choose : Bool) (id i res : Bytes) (c : ℕ) (held : Option Bytes) (p : Pending)
    → (i == id) ≡ false
    → Waits id c held p
    → Waits id c held (resolve choose (i, res) p)
unfolding resolve resolve_at
resolve-other choose id i res c held p n w = at_sub (get i p.subs) refl
  where
    at_heap :
        (x : ℕ) (o : Option Sub)
        → get i p.subs ≡ some x
        → Waits id c held (elim o [
          | none ↦ p
          | some sub ↦ record p { heap = put x (delivered choose res sub) p.heap }
        ])
    at_heap x none e = w
    at_heap x (some sub) e = record {
      here = w.here;
      box = ground (
        arith,
        w.box,
        get-put x c (delivered choose res sub) p.heap,
        ==_iff x c,
        w.alone i,
        e,
        n,
      );
      alone = w.alone;
    }

    at_sub : (o : Option ℕ) → get i p.subs ≡ o → Waits id c held (resolve_at choose res p o)
    at_sub none e = w
    at_sub (some x) e = at_heap x (get x p.heap) e

unfoldable pub mailbox : ℕ → Pending → Option Bytes
mailbox c p = elim (get c p.heap) [ none ↦ none | some sub ↦ sub.ch ]

Waits-resolve_all :
    (results : List (Bool × Bytes × Bytes)) (id : Bytes) (c : ℕ) (held : Option Bytes) (p : Pending)
    → Waits id c held p
    → mailbox c (resolve_all results p) ≡ or_else held (first_for id results)
unfolding resolve_all mailbox
Waits-resolve_all [] id c held p w = rw (w.box, mailbox) (by_held held)
  where
    by_held : (h : Option Bytes) → h ≡ or_else h none
    by_held none = refl
    by_held (some r) = refl
Waits-resolve_all ((choose, i, res) ∷ results) id c held p w = elim (Bool-cases (i == id)) [
  | inl same ↦ ground (
    arith,
    same,
    Waits-resolve_all results id c (or_else held (some res)) (resolve choose (i, res) p) (
        subst (λ x. Waits id c (or_else held (some res)) (resolve choose (x, res) p))
          (sym ((==_iff i id).0 same)) (resolve-mine choose id res c held p w)),
  )
  | inr other ↦ ground (
    arith,
    other,
    Waits-resolve_all results id c held (resolve choose (i, res) p)
        (resolve-other choose id i res c held p other w),
  )
]

-- Of all the results that arrive after the Open of a request, in any order and number, its mailbox
-- holds the first one that carries its id, if the mailboxes that are there have numbers below the next.
pub first_result :
    (id : Bytes) (results : List (Bool × Bytes × Bytes)) (p : Pending)
    → ((i : Bytes) (c : ℕ) → get i p.subs ≡ some c → c < p.next)
    → mailbox (open_request id p).0 (resolve_all results (open_request id p).1)
      ≡ first_for id results
unfolding open_request
first_result id results p below =
    Waits-resolve_all results id p.next none (open_request id p).1 (record {
      here = ground (arith, get-put id id p.next p.subs, ==_iff id id);
      box = ground (
        arith,
        get-put p.next p.next (record { ch = none; done = false }) p.heap,
        ==_iff p.next p.next,
      );
      alone = λ i h.
          ground (arith, h, get-put id i p.next p.subs, below i p.next, ==_iff id i, ==_iff i id);
    })
