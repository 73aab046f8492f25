-- ===== src/SyncStatus/Opening/Held.antt =====
-- What NewManagedIdentityRedisStore of internal/syncstatus/redis.go leaves open.
use password_hook_service.Prelude.{
  suc, true, Option, none, some, List, ◌∷◌, ◌≡◌, refl, arith, Text, Result, ok, err,
}
use password_hook_service.Prelude.Resources.{Use, opens, closes, asks, Results, held}
use password_hook_service.Config.Defs.{Parsers}
use password_hook_service.SyncStatus.Connection.{RedisOptions, validate_redis_options}
use password_hook_service.SyncStatus.Opening.{
  Part, credential, token_manager, provider, cluster_client, ping, same_part, RedisStore, OpenError,
  Opened, close_parts, close_store, pinged, with_store, with_provider, start_provider,
  new_redis_store, new_streaming_credentials_provider, with_credential, unless_invalid,
  new_managed_identity_redis_store,
}

module _ (p : Parsers) (redis : Results Part) where
  -- An error leaves as many open as before. A store has a provider and a client open, and its Close leaves as
  -- many open as before.
  abbrev pub IsClean : List (Use Part) → Opened × List (Use Part) → Type 0
  IsClean h (ok store, h') =
      (held same_part redis provider h' ≡ suc (held same_part redis provider h))
      × (held same_part redis cluster_client h' ≡ suc (held same_part redis cluster_client h))
      × ((r : Part)
          → held same_part redis r (close_store redis store h').1 ≡ held same_part redis r h)
  IsClean h (err e, h') = (r : Part) → held same_part redis r h' ≡ held same_part redis r h

  module _ (connects : (h : List (Use Part)) → redis (opens cluster_client ∷ h) ≡ none) where
    both_closed :
        (r : Part) (h : List (Use Part))
        → redis (opens provider ∷ h) ≡ none
        → held same_part redis r
            (closes provider ∷ closes cluster_client ∷ opens cluster_client ∷ opens provider ∷ h)
          ≡ held same_part redis r h
    unfolding held same_part
    both_closed credential h e = refl
    both_closed token_manager h e = refl
    both_closed provider h e = ground (arith, e)
    both_closed cluster_client h e = ground (arith, connects (opens provider ∷ h))
    both_closed ping h e = refl

    both_closed_asked :
        (r : Part) (h : List (Use Part))
        → redis (opens provider ∷ h) ≡ none
        → held same_part redis r (
            closes provider
            ∷ closes cluster_client
            ∷ asks ping
            ∷ opens cluster_client
            ∷ opens provider
            ∷ h)
          ≡ held same_part redis r h
    unfolding held same_part
    both_closed_asked credential h e = refl
    both_closed_asked token_manager h e = refl
    both_closed_asked provider h e = ground (arith, e)
    both_closed_asked cluster_client h e = ground (arith, connects (opens provider ∷ h))
    both_closed_asked ping h e = refl

    unstarted :
        (r : Part) (h : List (Use Part)) (x : Text)
        → redis (opens provider ∷ h) ≡ some x
        → held same_part redis r (opens provider ∷ h) ≡ held same_part redis r h
    unfolding held same_part
    unstarted credential h x e = refl
    unstarted token_manager h x e = refl
    unstarted provider h x e = ground (arith, e)
    unstarted cluster_client h x e = refl
    unstarted ping h x e = refl

    pinged-IsClean :
        (store : RedisStore) (h : List (Use Part)) (o : Option Text)
        → store.has_credentials ≡ true
        → redis (opens provider ∷ h) ≡ none
        → IsClean h (pinged p redis store o (asks ping ∷ opens cluster_client ∷ opens provider ∷ h))
    unfolding pinged close_store close_parts held same_part
    pinged-IsClean store h none owns e = (
      ground (arith, e),
      ground (arith, connects (opens provider ∷ h)),
      λ r. rw owns (both_closed_asked r h e),
    )
    pinged-IsClean store h (some x) owns e = λ r. rw owns (both_closed_asked r h e)

    with_store-IsClean :
        (made : Result OpenError RedisStore) (h : List (Use Part))
        → redis (opens provider ∷ h) ≡ none
        → IsClean h (with_store p redis made (opens cluster_client ∷ opens provider ∷ h))
    unfolding with_store
    with_store-IsClean (err x) h e = λ r. both_closed r h e
    with_store-IsClean (ok store) h e =
        pinged-IsClean (record store { has_credentials = true }) h
          (redis (asks ping ∷ opens cluster_client ∷ opens provider ∷ h)) refl e

    with_provider-IsClean :
        (o : RedisOptions) (h : List (Use Part)) (failure : Option Text)
        → redis (opens provider ∷ h) ≡ failure
        → IsClean h (with_provider p redis o failure (opens provider ∷ h))
    unfolding with_provider
    with_provider-IsClean o h none e =
        with_store-IsClean (new_redis_store true o.key_prefix o.pending_ttl o.terminal_ttl) h e
    with_provider-IsClean o h (some x) e = λ r. unstarted r h x e

    started-IsClean :
        (o : RedisOptions) (h : List (Use Part)) (failure : Option Text)
        → (let (f, h') = start_provider p redis failure h in
            IsClean h (with_provider p redis o f h'))
    unfolding start_provider with_provider
    started-IsClean o h (some x) = λ r. refl
    started-IsClean o h none = with_provider-IsClean o h (redis (opens provider ∷ h)) refl

    before_asking :
        (y : Part) (h : List (Use Part)) (x : Opened × List (Use Part))
        → IsClean (asks y ∷ h) x
        → IsClean h x
    unfolding held
    before_asking y h (ok store, h') clean = clean
    before_asking y h (err e, h') clean = clean

    credential-IsClean :
        (o : RedisOptions) (h : List (Use Part)) (failure : Option Text)
        → IsClean h (with_credential p redis o failure h)
    unfolding with_credential new_streaming_credentials_provider
    credential-IsClean o h (some x) = λ r. refl
    credential-IsClean o h none =
        let asked = asks token_manager ∷ h in
        before_asking token_manager h _ (started-IsClean o asked (redis asked))

    valid-IsClean :
        (o : RedisOptions) (h : List (Use Part)) (invalid : Option Text)
        → IsClean h (unless_invalid p redis o invalid h)
    unfolding unless_invalid
    valid-IsClean o h (some x) = λ r. refl
    valid-IsClean o h none =
        let asked = asks credential ∷ h in
        before_asking credential h _ (credential-IsClean o asked (redis asked))

    -- Where NewManagedIdentityRedisStore fails, also on the ping, it leaves as many providers and clients open as
    -- before. A store that it returns has one of each open, and its Close leaves as many open as before the
    -- constructor, also if closing the client fails; redis.NewClusterClient never fails.
    pub new_store-IsClean :
        (o : RedisOptions) (h : List (Use Part))
        → IsClean h (new_managed_identity_redis_store p redis o h)
    unfolding new_managed_identity_redis_store
    new_store-IsClean o h = valid-IsClean o h (validate_redis_options p o)
