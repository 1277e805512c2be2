-- ===== src/Session/Moves.antt =====
-- What a step of the session can do to its core, as a relation.
use concord_dev.Identity.{big_int_value}
use concord_dev.Base.Text.{Text}
use mathlib.Core.Path.{subst}
use concord_dev.Session.Inbound.{
  pump_inbound, end_inbound, is_empty_call, queue_remote, append_call, advance_to, fail_inbound,
  answer_call, remote_applied,
}
use concord_dev.Session.{
  RemoteCall, Session, applies_remote, advance_cursor, sets_cursor, fail_and_reconnect,
}
use concord_dev.Session.Core.{Core, Core, Core, Core, Core, Core, core}
use concord_dev.Base.{
  ℕ, suc, ◌+◌, ◌≤◌, ◌≡◌, inl, inr, refl, sym, ap, ◌∙◌, Bool, true, false, ◌||◌, Option, none, some,
  List, [], ◌∷◌, ◌++◌, arith, ltb, Bool-cases, Option-cases, some-inj,
}

-- `may_start` is whether the step is a call of `start`.
pub data Move (may_start : Bool) : Core → Core → Type 0 where
  begins : (c : Core) → may_start ≡ true → Move may_start c (record c { starting = true })
  -- the engine's durable cursor, at the start
  restarts :
      (c : Core) (cursor : Text)
      → c.starting ≡ true
      → Move may_start c (record c { last_cursor = cursor })
  settles :
      (c : Core) (b : Bool)
      → (c.starting ≡ false → b ≡ false)
      → Move may_start c (record c { starting = b })
  advances :
      (c : Core) (cursor : Text) (m n : ℕ)
      → big_int_value c.last_cursor ≡ some m
      → big_int_value cursor ≡ some n
      → m ≤ n
      → Move may_start c (record c { last_cursor = cursor })
  queues :
      (c : Core) (e : RemoteCall)
      → Move may_start c (record c { inbound = c.inbound ++ e ∷ []; queued = c.queued + 1 })
  ends :
      (c : Core) (e : RemoteCall) (rest : List RemoteCall)
      → c.inbound ≡ e ∷ rest
      → Move may_start c (record c { inbound = rest; done = c.done + 1 })
  applies :
      (c : Core) → c.disposed ≡ false → Move may_start c (record c { applied = suc c.applied })
  disposes : (c : Core) → Move may_start c (record c { disposed = true })

pub data Moves (may_start : Bool) (c : Core) : Core → Type 0 where
  stays : Moves may_start c c
  further : {d e : Core} → Moves may_start c d → Move may_start d e → Moves may_start c e

pub one-Move : {b : Bool} {c d : Core} → Move b c d → Moves b c d
one-Move m = further stays m

pub Moves-trans : {b : Bool} {c d e : Core} → Moves b c d → Moves b d e → Moves b c e
Moves-trans p stays = p
Moves-trans p (further q m) = further (Moves-trans p q) m

-- What leaves the core alone.
pub same : {b : Bool} {c d : Core} → d ≡ c → Moves b c d
same {b} {c} {d} e = subst (λ x. Moves b c x) (sym e) stays

-- A proof that a predicate is kept by every move is one that it is kept by every step.
pub Moves-kept {ℓ} :
    {b : Bool} (P : Core → Type ℓ)
    → ((c d : Core) → Move b c d → P c → P d)
    → {c d : Core} → Moves b c d
    → P c
    → P d
Moves-kept P keep stays p = p
Moves-kept P keep (further {d} {e} q m) p = keep d e m (Moves-kept P keep q p)

abbrev with_inbound : List RemoteCall → Core → Core
with_inbound q c = record c { inbound = q }

applying :
    {b : Bool} (e : RemoteCall) (rest : List RemoteCall) (s : Session)
    → s.disposed ≡ false
    → Moves b (with_inbound (e ∷ rest) (core s)) (
        core (record s {
          inbound = e ∷ rest;
          log = applies_remote (RemoteCall.ops e) (RemoteCall.cursor e) ∷ s.log;
        }))
unfolding core
applying e rest s h = one-Move (applies (with_inbound (e ∷ rest) (core s)) h)

or_left : (a b c : Bool) → (a || b || c) ≡ false → b ≡ false
or_left a b c h = ground arith

pub pump-Moves :
    {b : Bool} (q : List RemoteCall) (s : Session)
    → Moves b (with_inbound q (core s)) (core (pump_inbound q s))
unfolding pump_inbound core
pump-Moves [] s = stays
pump-Moves {b} (e ∷ rest) s =
    let skip : Moves b (with_inbound (e ∷ rest) (core s))
        (core (pump_inbound rest (end_inbound s))) =
      Moves-trans (one-Move (ends (with_inbound (e ∷ rest) (core s)) e rest refl))
        (pump-Moves rest (end_inbound s)) in
    elim (Bool-cases (s.catchup_failed || s.disposed || is_empty_call e)) [
      | inl h ↦ rw h skip
      | inr h ↦ rw h (applying e rest s (or_left s.catchup_failed s.disposed (is_empty_call e) h))
    ]

append-Moves :
    {b : Bool} (q : List RemoteCall) (e : RemoteCall) (s : Session)
    → Moves b
        (record (core s) { inbound = q ++ e ∷ []; queued = s.inbound_queued })
        (core (append_call q e s))
unfolding append_call core
append-Moves [] e s = pump-Moves (e ∷ []) s
append-Moves (head ∷ rest) e s = stays

pub queue_remote-Moves :
    {b : Bool} (ops : List (List ℕ)) (cursor : Option Text) (s : Session)
    → Moves b (core s) (core (queue_remote ops cursor s))
unfolding queue_remote core
queue_remote-Moves ops cursor s =
    let e : RemoteCall = record { ops = ops; cursor = cursor } in
    Moves-trans (one-Move (queues (core s) e))
      (append-Moves s.inbound e (record s { inbound_queued = s.inbound_queued + 1 }))

pub advance-Moves :
    {b : Bool} (cursor : Text) (s t : Session)
    → advance_cursor cursor s ≡ some t
    → Moves b (core s) (core t)
unfolding advance_cursor core
advance-Moves {b} cursor s t h = elim (Option-cases (big_int_value cursor)) [
  | inl e ↦ absurd (ground (arith, (rw (e, advance_cursor) at h)))
  | inr (n, e) ↦ elim (Option-cases (big_int_value s.last_cursor)) [
    | inl f ↦ absurd (ground (arith, (rw (e, f, advance_cursor) at h)))
    | inr (m, f) ↦ elim (Bool-cases (ltb n m)) [
      | inl g ↦
          let k : some s ≡ some t = rw (e, f, g, advance_cursor) at h in
          same (ap core (sym (some-inj k)))
      | inr g ↦
          let u : Session = record s { last_cursor = cursor; log = sets_cursor cursor ∷ s.log } in
          let k : some u ≡ some t = rw (e, f, g, advance_cursor) at h in
          let move : Moves b (core s) (core u) =
            one-Move (advances (core s) cursor m n f e (ground (arith, g))) in
          subst (λ x. Moves b (core s) (core x)) (some-inj k) move
    ]
  ]
]

advance_to-Moves :
    {b : Bool} (cursor : Option Text) (s t : Session)
    → advance_to cursor s ≡ some t
    → Moves b (core s) (core t)
advance_to-Moves none s t h = same (ap core (sym (some-inj h)))
advance_to-Moves (some c) s t h = advance-Moves c s t h

inbound-advance_to :
    (cursor : Option Text) (s t : Session) → advance_to cursor s ≡ some t → t.inbound ≡ s.inbound
unfolding advance_cursor
inbound-advance_to none s t h = ground (arith, h)
inbound-advance_to (some c) s t h = ground (arith, h)

fail-Moves :
    {b : Bool} (e : RemoteCall) (rest : List RemoteCall) (s : Session)
    → Moves b (with_inbound (e ∷ rest) (core s)) (core (fail_inbound rest s))
unfolding fail_inbound core
fail-Moves e rest s =
    Moves-trans (one-Move (ends (with_inbound (e ∷ rest) (core s)) e rest refl))
      (pump-Moves rest (end_inbound (fail_and_reconnect (record s { catchup_failed = true }))))

answer-Moves :
    {b : Bool} (q : List RemoteCall) (accepted : Bool) (s : Session)
    → q ≡ s.inbound
    → Moves b (core s) (core (answer_call q accepted s))
unfolding answer_call core
answer-Moves [] accepted s h = stays
answer-Moves {b} (e ∷ rest) false s h =
    subst (λ x. Moves b (with_inbound x (core s)) (core (fail_inbound rest s))) h
      (fail-Moves e rest s)
answer-Moves {b} (e ∷ rest) true s h = elim (Option-cases (advance_to (RemoteCall.cursor e) s)) [
  | inl f ↦ rw f (
      subst (λ x. Moves b (with_inbound x (core s)) (core (fail_inbound rest s))) h
        (fail-Moves e rest s))
  | inr (t, f) ↦
      let same_calls : t.inbound ≡ e ∷ rest =
        inbound-advance_to (RemoteCall.cursor e) s t f ∙ sym h in
      rw f (
        Moves-trans (advance_to-Moves (RemoteCall.cursor e) s t f) (
          Moves-trans (one-Move (ends (core t) e rest same_calls))
            (pump-Moves rest (end_inbound t))))
]

pub remote_applied-Moves :
    {b : Bool} (accepted : Bool) (s : Session) → Moves b (core s) (core (remote_applied accepted s))
unfolding remote_applied
remote_applied-Moves accepted s = answer-Moves s.inbound accepted s refl
