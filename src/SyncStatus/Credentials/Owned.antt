-- ===== src/SyncStatus/Credentials/Owned.antt =====
-- The provider of internal/syncstatus/redis.go owns the token manager: it stops it once.
use password_hook_service.Prelude.{
  ℕ, suc, Bool, true, false, not, ◌&&◌, ◌||◌, List, [], ◌∷◌, ◌++◌, ◌==◌, if◌then◌else◌, ◌≡◌, refl,
  ◌∙◌, arith, ◌+◌, ◌≤◌, ==_iff, Text, same_text, same_text_refl, tally,
}
use password_hook_service.SyncStatus.Credentials.{
  Call, stop, next_token, token_error, TokenManager, Provider, new_provider, is_among, subscribed,
  subscribe, without, unsubscribe, notify, on_next, on_error, close, Op, subscribing, unsubscribing,
  refreshing, failing, closing, do_op, do_ops,
}

-- How many times the token manager was stopped.
abbrev pub stops : List Call → ℕ
stops [] = 0
stops (stop ∷ h) = suc (stops h)
stops (_ ∷ h) = stops h

-- No listener stands in the list twice.
abbrev pub no_repeats : List ℕ → Bool
no_repeats [] = true
no_repeats (l ∷ ls) = not (is_among l ls) && no_repeats ls

pub record IsOwned (p : Provider) (h : List Call) : Type 0 where
  pub stopped_once : stops h ≡ (if p.closed then 1 else 0)
  pub none_after_close : (if p.closed then p.listeners else []) ≡ []
  pub listens_once : no_repeats p.listeners ≡ true
  pub closes_once : p.close_once ≡ p.closed

is_among-append : (l k : ℕ) (ls : List ℕ) → is_among l (ls ++ k ∷ []) ≡ (is_among l ls || (k == l))
is_among-append l k [] = ground arith
is_among-append l k (j ∷ ls) = ground (arith, is_among-append l k ls)

no_repeats-append :
    (ls : List ℕ) (l : ℕ)
    → no_repeats ls ≡ true
    → is_among l ls ≡ false
    → no_repeats (ls ++ l ∷ []) ≡ true
no_repeats-append [] l n f = ground arith
no_repeats-append (k ∷ ls) l n f = ground (arith, no_repeats-append ls l, is_among-append k l ls)

is_among-without :
    (j l : ℕ) (ls : List ℕ) → is_among j ls ≡ false → is_among j (without l ls) ≡ false
unfolding without
is_among-without j l [] f = f
is_among-without j l (k ∷ ls) f = ground (arith, is_among-without j l ls)

no_repeats-without : (l : ℕ) (ls : List ℕ) → no_repeats ls ≡ true → no_repeats (without l ls) ≡ true
unfolding without
no_repeats-without l [] n = n
no_repeats-without l (k ∷ ls) n = ground (arith, no_repeats-without l ls, is_among-without k l ls)

without-none : (l : ℕ) (ls : List ℕ) → ls ≡ [] → without l ls ≡ []
unfolding without
without-none l [] e = e
without-none l (k ∷ ls) e = cc e

stops-notify :
    (f : ℕ → Call) (ls : List ℕ) (h : List Call)
    → ((l : ℕ) (t : List Call) → stops (f l ∷ t) ≡ stops t)
    → stops (notify f ls h) ≡ stops h
unfolding notify
stops-notify f [] h same = refl
stops-notify f (l ∷ ls) h same = ground (arith, stops-notify f ls (f l ∷ h) same, same l h)

notified :
    (f : ℕ → Call) (p : Provider) (h : List Call)
    → IsOwned p h
    → ((l : ℕ) (t : List Call) → stops (f l ∷ t) ≡ stops t)
    → IsOwned p (notify f p.listeners h)
notified f p h i same = record {
  stopped_once = stops-notify f p.listeners h same ∙ i.stopped_once;
  none_after_close = i.none_after_close;
  listens_once = i.listens_once;
  closes_once = i.closes_once;
}

abbrev pub is_told : ℕ → Text → Call → Bool
is_told l token (next_token k t) = k == l && same_text t token
is_told l token _ = false

occurrences : ℕ → List ℕ → ℕ
occurrences l [] = 0
occurrences l (k ∷ ks) = if k == l then suc (occurrences l ks) else occurrences l ks

told-notify :
    (l : ℕ) (token : Text) (ls : List ℕ) (h : List Call)
    → tally (is_told l token) (notify (λ k. next_token k token) ls h)
      ≡ occurrences l ls + tally (is_told l token) h
unfolding notify occurrences
told-notify l token [] h = omega arith
told-notify l token (k ∷ ls) h =
    ground (arith, told-notify l token ls (next_token k token ∷ h), same_text_refl token)

occurrences-absent : (l : ℕ) (ls : List ℕ) → is_among l ls ≡ false → occurrences l ls ≡ 0
unfolding occurrences
occurrences-absent l [] f = refl
occurrences-absent l (k ∷ ls) f = ground (arith, occurrences-absent l ls, f)

occurrences-once : (l : ℕ) (ls : List ℕ) → no_repeats ls ≡ true → occurrences l ls ≤ 1
unfolding occurrences
occurrences-once l [] n = omega arith
occurrences-once l (k ∷ ls) n =
    ground (arith, occurrences-once l ls, occurrences-absent k ls, ==_iff k l)

on_next-once :
    (l : ℕ) (token : Text) (p : Provider) (h : List Call)
    → no_repeats p.listeners ≡ true
    → tally (is_told l token) (on_next p token h) ≤ suc (tally (is_told l token) h)
unfolding on_next
on_next-once l token p h n =
    omega (arith, told-notify l token p.listeners h, occurrences-once l p.listeners n)

module _ (m : TokenManager) where
  do_op-IsOwned :
      (op : Op) (p : Provider) (h : List Call)
      → IsOwned p h
      → IsOwned (do_op m op (p, h)).0 (do_op m op (p, h)).1
  unfolding do_op subscribe subscribed unsubscribe on_next on_error close
  do_op-IsOwned (subscribing l) p h i = record {
    stopped_once = ground (arith, i.stopped_once);
    none_after_close = ground (arith, i.none_after_close);
    listens_once = ground (arith, i.listens_once, no_repeats-append p.listeners l);
    closes_once = ground (arith, i.closes_once);
  }
  do_op-IsOwned (unsubscribing l) p h i = record {
    stopped_once = i.stopped_once;
    none_after_close = ground (arith, i.none_after_close, without-none l p.listeners);
    listens_once = no_repeats-without l p.listeners i.listens_once;
    closes_once = i.closes_once;
  }
  do_op-IsOwned (refreshing token) p h i = notified (λ l. next_token l token) p h i (λ l t. refl)
  do_op-IsOwned (failing e) p h i = notified (λ l. token_error l e) p h i (λ l t. refl)
  do_op-IsOwned closing p h i = record {
    stopped_once = ground (arith, i.stopped_once, i.closes_once);
    none_after_close = ground (arith, i.none_after_close, i.closes_once);
    listens_once = ground (arith, i.listens_once);
    closes_once = ground (arith, i.closes_once);
  }

  do_ops-IsOwned :
      (ops : List Op) (p : Provider) (h : List Call)
      → IsOwned p h
      → IsOwned (do_ops m ops (p, h)).0 (do_ops m ops (p, h)).1
  unfolding do_ops
  do_ops-IsOwned [] p h i = i
  do_ops-IsOwned (op ∷ ops) p h i =
      let (p', h') = do_op m op (p, h) in do_ops-IsOwned ops p' h' (do_op-IsOwned op p h i)

  -- Whatever its clients do in whatever order, the provider stops its token manager once when it is closed, however
  -- often that is, and never before; no listener is listed twice, and a refresh notifies a listener once at most; and
  -- once it is closed, no listener is left or taken.
  pub provider-IsOwned :
      (ops : List Op) (l : ℕ) (token : Text)
      → IsOwned (do_ops m ops (new_provider, [])).0 (do_ops m ops (new_provider, [])).1
        × (tally (is_told l token) (do_op m (refreshing token) (do_ops m ops (new_provider, []))).1
            ≤ suc (tally (is_told l token) (do_ops m ops (new_provider, [])).1))
  unfolding do_op
  provider-IsOwned ops l token =
      let i = do_ops-IsOwned ops new_provider [] (record {
        stopped_once = refl;
        none_after_close = refl;
        listens_once = refl;
        closes_once = refl;
      }) in
      let (p, h) = do_ops m ops (new_provider, []) in (i, on_next-once l token p h i.listens_once)
