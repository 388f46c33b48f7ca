-- ===== src/Background/SignIn/Claims.antt =====
-- Which codes src/background/signin.ts redeems.
use fire_sync.Prelude.{
  ℕ, zero, suc, inl, inr, ◌-◌, ◌<◌, ◌≤◌, ◌≡◌, refl, ◌≢◌, String, Bool, true, false, not, ◌&&◌,
  Option, none, some, List, [], ◌∷◌, ◌++◌, ◌==◌, ltb, length, length-append, drop, All, All-map,
  Bool-cases, arith,
}
use fire_sync.Prelude.Result.{Result, ok, err}
use fire_sync.Url.{UrlParser}
use fire_sync.Background.SignIn.{
  cancel_pending, close_pending, owns_tab, handle_any, end_exchange, StoredPending, SignInResult,
  Coordinator, Flow, ExchangeError, finish, with_step, ends_with, is_other_tab, begin, cancel,
  on_tab_closed, redact, looks_like_our_redirect, decided, handle_pending, handle_navigation,
  finished, complete_exchange, restart, Step, begins, cancels, closes_tab, navigates, exchanges,
  restarts, Reachable, at_start, after,
}

abbrev pub NoRepeat : List ℕ → Type 0
NoRepeat [] = Unit
NoRepeat (x ∷ xs) = All (λ y. y ≢ x) xs × NoRepeat xs

-- A pending flow has been begun, its code has not been redeemed, and its trail is short.
abbrev IsUnused : ℕ → List ℕ → StoredPending → Type 0
IsUnused begun redeemed p =
    (p.flow_id < begun) × All (λ r. r ≢ p.flow_id) redeemed × (length p.trail ≤ 12)

abbrev PendingOk : ℕ → List ℕ → Option StoredPending → Type 0
PendingOk begun redeemed none = Unit
PendingOk begun redeemed (some p) = IsUnused begun redeemed p

abbrev ExchangeOk : Option StoredPending → Type 0
ExchangeOk none = Unit
ExchangeOk (some p) = length p.trail ≤ 12

abbrev ResultOk : Option SignInResult → Type 0
ResultOk none = Unit
ResultOk (some r) = length r.trail ≤ 12

record IsCoherent (s : Coordinator) : Type 0 where
  pending_ok : PendingOk s.begun s.redeemed s.pending
  exchange_ok : ExchangeOk s.exchanging
  result_ok : ResultOk s.last_result
  redeemed_begun : All (λ r. r < s.begun) s.redeemed
  redeemed_once : NoRepeat s.redeemed

length-drop : {A : Type 0} (n : ℕ) (xs : List A) → length (drop n xs) ≡ length xs - n
length-drop zero xs = omega arith
length-drop (suc n) [] = omega arith
length-drop (suc n) (x ∷ xs) = omega (arith, length-drop n xs)

finish-IsCoherent :
    (r : SignInResult) (s : Coordinator)
    → length r.trail ≤ 12
    → IsCoherent s
    → IsCoherent (finish r s)
finish-IsCoherent r s short c = record {
  pending_ok = tt;
  exchange_ok = c.exchange_ok;
  result_ok = short;
  redeemed_begun = c.redeemed_begun;
  redeemed_once = c.redeemed_once;
}

restart-IsCoherent : (s : Coordinator) → IsCoherent s → IsCoherent (restart s)
restart-IsCoherent s c = record {
  pending_ok = c.pending_ok;
  exchange_ok = tt;
  result_ok = c.result_ok;
  redeemed_begun = c.redeemed_begun;
  redeemed_once = c.redeemed_once;
}

begin-IsCoherent :
    (state_text : String) (tab : Option ℕ) (now : ℕ) (s : Coordinator)
    → IsCoherent s
    → IsCoherent (begin state_text tab now s)
unfolding begin
begin-IsCoherent state_text tab now s c = record {
  pending_ok = (
    omega arith,
    All-map (λ r. r < s.begun) (λ r. r ≢ s.begun) (λ r h e. absurd (omega arith)) s.redeemed
        c.redeemed_begun,
    omega arith,
  );
  exchange_ok = c.exchange_ok;
  result_ok = tt;
  redeemed_begun =
      All-map (λ r. r < s.begun) (λ r. r < suc s.begun) (λ r h. omega arith) s.redeemed
        c.redeemed_begun;
  redeemed_once = c.redeemed_once;
}

cancel_pending-IsCoherent :
    (reason : String) (now : ℕ) (s : Coordinator) (o : Option StoredPending)
    → PendingOk s.begun s.redeemed o
    → IsCoherent s
    → IsCoherent (cancel_pending reason now s o)
cancel_pending-IsCoherent reason now s none good c = c
cancel_pending-IsCoherent reason now s (some p) (_, _, short) c = finish-IsCoherent _ s short c

with_step-IsUnused :
    (step : String) (begun : ℕ) (redeemed : List ℕ) (p : StoredPending)
    → IsUnused begun redeemed p
    → IsUnused begun redeemed (with_step step p)
with_step-IsUnused step begun redeemed p (old, unused, short) =
    elim (Bool-cases (ends_with p.trail step)) [
      | inl same ↦ rw same (old, unused, short)
      | inr new ↦
          let longer = length-append p.trail (step ∷ []) in
          let kept = length-drop (length (p.trail ++ (step ∷ [])) - 12) (p.trail ++ (step ∷ [])) in
          rw new (old, unused, omega arith)
    ]

close_pending-IsCoherent :
    (tab now : ℕ) (s : Coordinator) (o : Option StoredPending)
    → PendingOk s.begun s.redeemed o
    → IsCoherent s
    → IsCoherent (close_pending tab now s o)
close_pending-IsCoherent tab now s none good c = c
close_pending-IsCoherent tab now s (some p) (_, _, short) c =
    elim (Bool-cases (owns_tab p.tab_id tab)) [
      | inl own ↦ rw own (finish-IsCoherent _ s short c)
      | inr other ↦ rw other c
    ]

finished-trail :
    (now : ℕ) (p : StoredPending) (o : Result ExchangeError String)
    → (finished now p o).trail ≡ p.trail
finished-trail now p (ok email) = refl
finished-trail now p (err e) = refl

end_exchange-IsCoherent :
    (now : ℕ) (outcome : Result ExchangeError String) (s : Coordinator) (o : Option StoredPending)
    → ExchangeOk o
    → IsCoherent s
    → IsCoherent (end_exchange now outcome s o)
end_exchange-IsCoherent now outcome s none short c = c
end_exchange-IsCoherent now outcome s (some p) short c =
    finish-IsCoherent (finished now p outcome) (restart s) (rw (finished-trail now p outcome) short)
      (restart-IsCoherent s c)

module _ (parse_url : UrlParser) (flow : Flow) where
  decided-IsCoherent :
      (now : ℕ) (p : StoredPending) (s : Coordinator) (r : Result String Bool)
      → IsUnused s.begun s.redeemed p
      → s.pending ≡ some p
      → IsCoherent s
      → IsCoherent (decided parse_url flow now p s r)
  decided-IsCoherent now p s (err message) (old, unused, short) at c = finish-IsCoherent _ s short c
  decided-IsCoherent now p s (ok false) (old, unused, short) at c =
      elim (Bool-cases (ltb 3_600_000 (now - p.started_at))) [
        | inl late ↦ rw late (finish-IsCoherent _ s short c)
        | inr soon ↦ rw soon c
      ]
  decided-IsCoherent now p s (ok true) (old, unused, short) at c = record {
    pending_ok = tt;
    exchange_ok = short;
    result_ok = c.result_ok;
    redeemed_begun = (old, c.redeemed_begun);
    redeemed_once = (unused, c.redeemed_once);
  }

  with_pending-IsCoherent :
      (p : StoredPending) (s : Coordinator)
      → IsUnused s.begun s.redeemed p
      → IsCoherent s
      → IsCoherent (record s { pending = some p })
  with_pending-IsCoherent p s good c = record {
    pending_ok = good;
    exchange_ok = c.exchange_ok;
    result_ok = c.result_ok;
    redeemed_begun = c.redeemed_begun;
    redeemed_once = c.redeemed_once;
  }

  handle_pending-IsCoherent :
      (tab : ℕ) (url : String) (now : ℕ) (p : StoredPending) (s : Coordinator)
      → IsUnused s.begun s.redeemed p
      → IsCoherent s
      → IsCoherent (handle_pending parse_url flow tab url now p s)
  handle_pending-IsCoherent tab url now p s good c =
      let p' = with_step (redact parse_url flow url) p in
      let good' = with_step-IsUnused (redact parse_url flow url) s.begun s.redeemed p good in
      elim (Bool-cases
        (is_other_tab p.tab_id tab && not (looks_like_our_redirect parse_url flow url p))) [
          | inl other ↦ rw other c
          | inr ours ↦ rw ours (
              decided-IsCoherent now p' (record s { pending = some p' }) (flow.matches url p') good'
                refl (with_pending-IsCoherent p' s good' c))
        ]

  handle_navigation-IsCoherent :
      (tab : ℕ) (url : Option String) (now : ℕ) (s : Coordinator)
      → IsCoherent s
      → IsCoherent (handle_navigation parse_url flow tab url now s)
  unfolding handle_navigation
  handle_navigation-IsCoherent tab none now s c = c
  handle_navigation-IsCoherent tab (some url) now s c = elim (Bool-cases (url == "")) [
    | inl blank ↦ rw blank c
    | inr there ↦ rw there (any_pending s.pending c.pending_ok)
  ]
    where
      any_pending :
          (o : Option StoredPending)
          → PendingOk s.begun s.redeemed o
          → IsCoherent (handle_any parse_url flow tab url now s o)
      any_pending none good = c
      any_pending (some p) good = handle_pending-IsCoherent tab url now p s good c

  Step-IsCoherent : {s s' : Coordinator} → Step parse_url flow s s' → IsCoherent s → IsCoherent s'
  unfolding cancel on_tab_closed complete_exchange
  Step-IsCoherent (begins state_text tab now) c = begin-IsCoherent state_text tab now _ c
  Step-IsCoherent (cancels {s = s} reason now) c =
      cancel_pending-IsCoherent reason now s s.pending c.pending_ok c
  Step-IsCoherent (closes_tab {s = s} tab now) c =
      close_pending-IsCoherent tab now s s.pending c.pending_ok c
  Step-IsCoherent (navigates tab url now idle) c = handle_navigation-IsCoherent tab url now _ c
  Step-IsCoherent (exchanges {s = s} now outcome) c =
      end_exchange-IsCoherent now outcome s s.exchanging c.exchange_ok c
  Step-IsCoherent restarts c = restart-IsCoherent _ c

  Reachable-IsCoherent : {s : Coordinator} → Reachable parse_url flow s → IsCoherent s
  Reachable-IsCoherent at_start = record {
    pending_ok = tt;
    exchange_ok = tt;
    result_ok = tt;
    redeemed_begun = tt;
    redeemed_once = tt;
  }
  Reachable-IsCoherent (after before step) = Step-IsCoherent step (Reachable-IsCoherent before)

  -- However sign-ins begin, are cancelled, navigate, finish their exchange, or have their worker torn
  -- down, the code of a sign-in is exchanged once at most, and only of one that was begun; and no
  -- pending sign-in and no result has a trail of more than 12 entries.
  pub Reachable-once :
      (s : Coordinator)
      → Reachable parse_url flow s
      → NoRepeat s.redeemed
        × All (λ r. r < s.begun) s.redeemed
        × ((p : StoredPending) → s.pending ≡ some p → length p.trail ≤ 12)
        × ((r : SignInResult) → s.last_result ≡ some r → length r.trail ≤ 12)
  Reachable-once s reachable =
      let c = Reachable-IsCoherent reachable in
      (
        c.redeemed_once,
        c.redeemed_begun,
        (λ p at. let good : IsUnused s.begun s.redeemed p = rw at at c.pending_ok in good.2),
        λ r at. let good : length r.trail ≤ 12 = rw at at c.result_ok in good,
      )
