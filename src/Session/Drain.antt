-- ===== src/Session/Drain.antt =====
-- src/lib/sync/sync-session.ts, `queueRemote`: the queue of remote operations runs empty when the engine
-- accepts its calls.
use concord_dev.Identity.{big_int_value, big_int_value}
use concord_dev.Session.Inbound.{remote_applied, is_empty_call}
use concord_dev.Base.Text.{Text, Text, Text, Text, Text, Text, Text, Text}
use concord_dev.Session.{Session, RemoteCall, RemoteCall, Session, RemoteCall, RemoteCall}
use concord_dev.Base.{
  ℕ, zero, suc, ◌+◌, ◌≤◌, ◌≡◌, Bool, true, false, ◌||◌, Option, none, some, List, [], ◌∷◌, length,
}

-- The engine accepts one call after the other.
unfoldable pub accept_calls : ℕ → Session → Session
accept_calls zero s = s
accept_calls (suc n) s = accept_calls n (remote_applied true s)

abbrev pub IsValue : Text → Type 0
IsValue cursor = (n : ℕ) × (big_int_value cursor ≡ some n)

abbrev pub HasValue : Option Text → Type 0
HasValue none = Unit {0}
HasValue (some cursor) = IsValue cursor

-- Each cursor of the calls is one that BigInt reads.
abbrev pub AllValues : List RemoteCall → Type 0
AllValues [] = Unit {0}
AllValues (e ∷ rest) = HasValue e.cursor × AllValues rest

-- The second cursor is as far as the first.
abbrev pub IsBehind : Text → Text → Type 0
IsBehind cursor last =
    (n : ℕ) × (m : ℕ) × (big_int_value cursor ≡ some n) × (big_int_value last ≡ some m) × (n ≤ m)

abbrev pub IsReached : Option Text → Text → Type 0
IsReached none last = Unit {0}
IsReached (some cursor) last = IsBehind cursor last

abbrev pub AllReached : List RemoteCall → Text → Type 0
AllReached [] last = Unit {0}
AllReached (e ∷ rest) last = IsReached e.cursor last × AllReached rest last

-- A session that takes remote operations.
pub record IsOpen (s : Session) : Type 0 where
  pub not_failed : s.catchup_failed ≡ false
  pub not_disposed : s.disposed ≡ false
  pub value : IsValue s.last_cursor

record Pumped (q : List RemoteCall) (s t : Session) : Type 0 where
  not_failed : t.catchup_failed ≡ false
  not_disposed : t.disposed ≡ false
  cursor : t.last_cursor ≡ s.last_cursor
  counted : t.inbound_done + length t.inbound ≡ s.inbound_done + length q
  shorter : length t.inbound ≤ length q
  values : AllValues t.inbound
  reached : (last : Text) → AllReached t.inbound last → AllReached q last

abbrev skipping : Session → RemoteCall → Bool
skipping s e = s.catchup_failed || s.disposed || is_empty_call e

record Advanced (cursor : Option Text) (s t : Session) : Type 0 where
  not_failed : t.catchup_failed ≡ s.catchup_failed
  not_disposed : t.disposed ≡ s.disposed
  counted : t.inbound_done ≡ s.inbound_done
  grew : IsBehind s.last_cursor t.last_cursor
  reached : IsReached cursor t.last_cursor

-- What the next answer does to an open session.
record Accepted (q : List RemoteCall) (s t : Session) : Type 0 where
  open_ : IsOpen t
  values : AllValues t.inbound
  shorter : length t.inbound + 1 ≤ length q
  counted : t.inbound_done + length t.inbound ≡ s.inbound_done + length q
  grew : IsBehind s.last_cursor t.last_cursor
  reached :
      (last : Text) → IsBehind t.last_cursor last → AllReached t.inbound last → AllReached q last

record Drained (s t : Session) : Type 0 where
  idle : t.inbound ≡ []
  counted : t.inbound_done ≡ s.inbound_done + length s.inbound
  grew : IsBehind s.last_cursor t.last_cursor
  reached : AllReached s.inbound t.last_cursor
