-- ===== src/Vault/Store/Box.antt =====
-- What `VaultStore` of src/vault/store.ts promises, without keys and ciphers: a box that is closed or
-- open, and the calls on it, given the canonical form of passphrases; and the same calls on the store.
use fire_sync.Prelude.{
  ℕ, String, Bool, true, false, Option, none, some, List, [], ◌∷◌, ltb, ◌==◌, if◌then◌else◌,
}
use fire_sync.Prelude.Result.{Result, ok, err}
use fire_sync.Sync.Session.{AccountTokens, SyncState}
use fire_sync.Vault.Contents.{VaultContents, empty_vault_contents}
use fire_sync.Vault.Crypto.{
  VaultError, vault_locked, wrong_passphrase, no_vault, vault_exists, not_by_passphrase,
  current_required, too_few_iterations, Cipher, iterations_of,
}
use fire_sync.Vault.State.{
  VaultProtection, device, passphrase, empty_sync_state, Store, Op, ◌>>=◌, ◌>>◌, return,
}
use fire_sync.Vault.Store.{
  Fresh, given, Wanted, protection, lock, is_unlocked, reset, clear_tokens, create, ensure, unlock,
  read_contents, write_contents, read_tokens, write_tokens, read_sync_state, write_sync_state,
  set_protection,
}

pub data Lock : Type 0 where
  by_device : Lock
  by_passphrase : String → Bool → Lock

pub record Held : Type 0 where
  pub guard : Lock
  pub contents : VaultContents
  pub tokens : Option AccountTokens
  pub sync : SyncState

abbrev pub Box : Type 0
Box = Option Held

pub data Call : Type 0 where
  call_create : Wanted → Call
  call_ensure call_lock call_is_unlocked call_protection call_reset : Call
  call_unlock : String → Call
  call_read_contents call_read_tokens call_read_sync_state call_clear_tokens : Call
  call_write_contents : VaultContents → Call
  call_write_tokens : AccountTokens → Call
  call_write_sync_state : SyncState → Call
  call_set_protection : Wanted → Option String → Call

pub data Answer : Type 0 where
  done : Answer
  flag : Bool → Answer
  protected_by : VaultProtection → Answer
  contents_answer : VaultContents → Answer
  tokens_answer : Option AccountTokens → Answer
  sync_answer : SyncState → Answer

abbrev pub Outcome : Type 0
Outcome = Result VaultError Answer × Box

abbrev pub is_open_lock : Lock → Bool
is_open_lock by_device = true
is_open_lock (by_passphrase p is_open) = is_open

abbrev pub closed : Lock → Lock
closed by_device = by_device
closed (by_passphrase p is_open) = by_passphrase p false

abbrev pub protection_of : Lock → VaultProtection
protection_of by_device = device
protection_of (by_passphrase p is_open) = passphrase

-- The lock that is asked for; a passphrase must be stretched 100,000 times at least. What a lock knows
-- of a passphrase is its canonical form, so that two spellings of one passphrase open the same box.
abbrev pub asked : (String → String) → Option String → Option ℕ → Result VaultError Lock
asked canon none n = ok by_device
asked canon (some p) n =
    if ltb (iterations_of n) 100_000
    then err (too_few_iterations (iterations_of n))
    else ok (by_passphrase (canon p) true)

abbrev pub locked_by : Held → Result VaultError Lock → Outcome
locked_by h (err e) = (err e, some h)
locked_by h (ok l) = (ok done, some (record h { guard = l }))

abbrev pub made : Result VaultError Lock → Outcome
made (err e) = (err e, none)
made (ok l) = (
  ok done,
  some (record {
    guard = l;
    contents = empty_vault_contents;
    tokens = none;
    sync = empty_sync_state;
  }),
)

-- Only an open box is read or written.
abbrev pub if_open : Held → Result VaultError Answer × Held → Outcome
if_open h (answer, h') =
    if is_open_lock h.guard then (answer, some h') else (err vault_locked, some h)

abbrev pub opened : (String → String) → Held → Lock → String → Outcome
opened canon h by_device q = (err not_by_passphrase, some h)
opened canon h (by_passphrase p is_open) q =
    if canon q == p
    then (ok done, some (record h { guard = by_passphrase p true }))
    else (err wrong_passphrase, some h)

abbrev pub locked_after : (String → String) → Wanted → Outcome → Outcome
locked_after canon w (err e, b) = (err e, b)
locked_after canon w (ok a, none) = (ok a, none)
locked_after canon w (ok a, some h) = locked_by h (asked canon (given w.passphrase) w.iterations)

abbrev pub relocked : (String → String) → Held → Wanted → Lock → Option String → Outcome
relocked canon h w by_device current = locked_by h (asked canon (given w.passphrase) w.iterations)
relocked canon h w (by_passphrase p is_open) none = (err current_required, some h)
relocked canon h w (by_passphrase p is_open) (some q) =
    locked_after canon w (opened canon h (by_passphrase p is_open) q)

abbrev pub with_tokens : Held → AccountTokens → Held
with_tokens h t = record h { tokens = some t; sync = record h.sync { last_sync_error = none } }

-- A box that is there.
abbrev pub on_held : (String → String) → Call → Held → Outcome
on_held canon (call_create w) h = (err vault_exists, some h)
on_held canon call_ensure h = (ok done, some h)
on_held canon call_lock h = (ok done, some (record h { guard = closed h.guard }))
on_held canon call_is_unlocked h = (ok (flag (is_open_lock h.guard)), some h)
on_held canon call_protection h = (ok (protected_by (protection_of h.guard)), some h)
on_held canon call_reset h = (ok done, none)
on_held canon (call_unlock q) h = opened canon h h.guard q
on_held canon call_read_contents h = if_open h (ok (contents_answer h.contents), h)
on_held canon call_read_tokens h = if_open h (ok (tokens_answer h.tokens), h)
on_held canon call_read_sync_state h = if_open h (ok (sync_answer h.sync), h)
on_held canon call_clear_tokens h = (ok done, some (record h { tokens = none }))
on_held canon (call_write_contents c) h = if_open h (ok done, record h { contents = c })
on_held canon (call_write_tokens t) h = if_open h (ok done, with_tokens h t)
on_held canon (call_write_sync_state s) h = if_open h (ok done, record h { sync = s })
on_held canon (call_set_protection w current) h = relocked canon h w h.guard (given current)

-- Where there is none, a call that needs one throws.
abbrev pub on_none : (String → String) → Call → Outcome
on_none canon (call_create w) = made (asked canon (given w.passphrase) w.iterations)
on_none canon call_ensure = made (ok by_device)
on_none canon call_lock = (ok done, none)
on_none canon call_is_unlocked = (ok (flag false), none)
on_none canon call_protection = (ok (protected_by device), none)
on_none canon call_reset = (ok done, none)
on_none canon call_clear_tokens = (ok done, none)
on_none canon _ = (err no_vault, none)

abbrev pub spec : (String → String) → Call → Box → Outcome
spec canon c none = on_none canon c
spec canon c (some h) = on_held canon c h

module _ {Key Text : Type 0} (cipher : Cipher Key Text) where
  -- The call on the store, with what it draws.
  abbrev pub run_call : Fresh Key → Call → Op Key Text Answer
  run_call fresh (call_create w) = do create cipher fresh w; return done
  run_call fresh call_ensure = do ensure cipher fresh; return done
  run_call fresh call_lock = do lock; return done
  run_call fresh call_is_unlocked = do b ← is_unlocked; return (flag b)
  run_call fresh call_protection = do p ← protection; return (protected_by p)
  run_call fresh call_reset = do reset; return done
  run_call fresh (call_unlock q) = do unlock cipher fresh q; return done
  run_call fresh call_read_contents = do c ← read_contents cipher fresh; return (contents_answer c)
  run_call fresh call_read_tokens = do t ← read_tokens cipher fresh; return (tokens_answer t)
  run_call fresh call_read_sync_state = do s ← read_sync_state cipher fresh; return (sync_answer s)
  run_call fresh call_clear_tokens = do clear_tokens; return done
  run_call fresh (call_write_contents c) = do write_contents cipher fresh c; return done
  run_call fresh (call_write_tokens t) = do write_tokens cipher fresh t; return done
  run_call fresh (call_write_sync_state s) = do write_sync_state cipher fresh s; return done
  run_call fresh (call_set_protection w current) = do
    set_protection cipher fresh w current
    return done

  -- One call after another: all the answers, and the store at the end.
  unfoldable pub run_all :
      List (Fresh Key × Call) → Store Key Text → List (Result VaultError Answer) × Store Key Text
  run_all [] s = ([], s)
  run_all ((fresh, c) ∷ calls) s =
      let (answer, s') = run_call fresh c s in
      let (answers, last) = run_all calls s' in (answer ∷ answers, last)

unfoldable pub spec_all :
    (String → String) → List Call → Box → List (Result VaultError Answer) × Box
spec_all canon [] b = ([], b)
spec_all canon (c ∷ calls) b =
    let (answer, b') = spec canon c b in
    let (answers, last) = spec_all canon calls b' in (answer ∷ answers, last)
