-- ===== src/SyncStatus/Credentials.antt =====
-- ownedCredentialsProvider of internal/syncstatus/redis.go. A listener is the number of its allocation. The mutex makes
-- each method one step; the calls of the token manager and of the listeners are recorded, newest first.
pub mod Owned
use password_hook_service.Prelude.{
  ℕ, Bool, true, false, Option, none, some, List, [], ◌∷◌, ◌++◌, ◌==◌, any, if◌then◌else◌, Text,
  Result, ok, err,
}
use password_hook_service.Prelude.Effects.{Exec, call, tell, pure, ◌>>=◌}

pub data Call : Type 0 where
  get_token stop : Call
  next_token : (listener : ℕ) → (token : Text) → Call
  token_error : (listener : ℕ) → (error : Text) → Call

pub record TokenManager : Type 0 where
  pub token_result : List Call → Result Text Text
  pub stop_result : List Call → Option Text

pub record Provider : Type 0 where
  pub listeners : List ℕ
  pub closed : Bool
  -- has closeOnce run?
  pub close_once : Bool
  pub close_err : Option Text

pub data ProviderError : Type 0 where
  provider_closed : ProviderError
  token_failed : Text → ProviderError

-- newOwnedCredentialsProvider, once the token manager has started.
abbrev pub new_provider : Provider
new_provider = record { listeners = []; closed = false; close_once = false; close_err = none }

abbrev pub is_among : ℕ → List ℕ → Bool
is_among l ls = any (λ k. k == l) ls

subscribed : Provider → ℕ → Result Text Text → Result ProviderError Text × Provider
subscribed p l (err e) = (err (token_failed e), p)
subscribed p l (ok current) = (
  ok current,
  if is_among l p.listeners then p else record p { listeners = p.listeners ++ l ∷ [] },
)

unfoldable pub subscribe :
    TokenManager → Provider → ℕ → Exec Call (Result ProviderError Text × Provider)
unfolding subscribed
subscribe m p l =
    if p.closed
    then pure (err provider_closed, p)
    else (do current ← call get_token m.token_result; pure (subscribed p l current))

-- The loop of the function that Subscribe returns: the first occurrence goes.
unfoldable pub without : ℕ → List ℕ → List ℕ
without l [] = []
without l (k ∷ ks) = if k == l then ks else k ∷ without l ks

unfoldable pub unsubscribe : Provider → ℕ → Provider
unfolding without
unsubscribe p l = record p { listeners = without l p.listeners }

notify : (ℕ → Call) → List ℕ → List Call → List Call
notify f [] h = h
notify f (l ∷ ls) h = notify f ls (f l ∷ h)

unfoldable pub on_next : Provider → Text → List Call → List Call
unfolding notify
on_next p token = notify (λ l. next_token l token) p.listeners

unfoldable pub on_error : Provider → Text → List Call → List Call
unfolding notify
on_error p e = notify (λ l. token_error l e) p.listeners

unfoldable pub close : TokenManager → Provider → Exec Call (Option Text × Provider)
close m p = if p.close_once then pure (p.close_err, p) else (do
  failure ← call stop m.stop_result
  pure (failure, record { listeners = []; closed = true; close_once = true; close_err = failure }))

-- What the clients of the provider may do, and the store at its end.
pub data Op : Type 0 where
  subscribing unsubscribing : (listener : ℕ) → Op
  refreshing failing : Text → Op
  closing : Op

unfoldable pub do_op : TokenManager → Op → Provider × List Call → Provider × List Call
unfolding subscribe unsubscribe on_next on_error close
do_op m (subscribing l) (p, h) = let (answer, h') = subscribe m p l h in (answer.1, h')
do_op m (unsubscribing l) (p, h) = (unsubscribe p l, h)
do_op m (refreshing token) (p, h) = (p, on_next p token h)
do_op m (failing e) (p, h) = (p, on_error p e h)
do_op m closing (p, h) = let (answer, h') = close m p h in (answer.1, h')

unfoldable pub do_ops : TokenManager → List Op → Provider × List Call → Provider × List Call
unfolding do_op
do_ops m [] s = s
do_ops m (op ∷ ops) s = do_ops m ops (do_op m op s)
