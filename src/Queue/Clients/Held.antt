-- ===== src/Queue/Clients/Held.antt =====
-- What the constructors of internal/servicebusqueue leave open.
use password_hook_service.Prelude.{
  suc, Bool, false, Option, none, some, List, ◌∷◌, ◌≡◌, refl, arith, Text, is_blank, Bool-cases,
  inl, inr, ok, err,
}
use password_hook_service.Prelude.Resources.{Use, opens, closes, Results, held}
use password_hook_service.Queue.Clients.{
  Part, client, sender, receiver, same_part, Opened, with_client, part_opened, client_error,
  new_client, close_opened, Constructor, construct, queue_of_connection_string,
  receiver_of_connection_string, dead_letter_of_connection_string, queue_of_namespace,
  receiver_of_namespace, dead_letter_of_namespace, new_client_from_namespace, new_from_namespace,
  new_receiver_from_namespace, new_dead_letter_queue_from_namespace, new_from_connection_string,
  new_receiver_from_connection_string, new_dead_letter_queue_from_connection_string,
}

module _ (azure : Results Part) where
  -- An error leaves as many open as before. What is built is open, with its client, and its Close leaves as
  -- many open as before.
  abbrev pub IsClean : List (Use Part) → Opened × List (Use Part) → Type 0
  IsClean h (ok p, h') =
      (held same_part azure client h' ≡ suc (held same_part azure client h))
      × (held same_part azure p h' ≡ suc (held same_part azure p h))
      × ((r : Part) → held same_part azure r (close_opened azure p h').1 ≡ held same_part azure r h)
  IsClean h (err e, h') = (r : Part) → held same_part azure r h' ≡ held same_part azure r h

  opened-closed :
      (p r : Part) (h : List (Use Part))
      → same_part client p ≡ false
      → azure (opens client ∷ h) ≡ none
      → azure (opens p ∷ opens client ∷ h) ≡ none
      → held same_part azure r (close_opened azure p (opens p ∷ opens client ∷ h)).1
        ≡ held same_part azure r h
  unfolding held same_part close_opened
  opened-closed client r h other c o = cc other
  opened-closed sender client h other c o = ground (arith, c, o)
  opened-closed sender sender h other c o = ground (arith, c, o)
  opened-closed sender receiver h other c o = ground (arith, c, o)
  opened-closed receiver client h other c o = ground (arith, c, o)
  opened-closed receiver sender h other c o = ground (arith, c, o)
  opened-closed receiver receiver h other c o = ground (arith, c, o)

  opened-held :
      (p : Part) (h : List (Use Part))
      → same_part client p ≡ false
      → azure (opens client ∷ h) ≡ none
      → azure (opens p ∷ opens client ∷ h) ≡ none
      → (held same_part azure client (opens p ∷ opens client ∷ h)
          ≡ suc (held same_part azure client h))
        × (held same_part azure p (opens p ∷ opens client ∷ h) ≡ suc (held same_part azure p h))
  unfolding held same_part
  opened-held client h other c o = cc other
  opened-held sender h other c o = ground (arith, c, o)
  opened-held receiver h other c o = ground (arith, c, o)

  -- The client is closed when the part cannot be opened.
  refused-held :
      (p r : Part) (h : List (Use Part)) (e : Text)
      → same_part client p ≡ false
      → azure (opens client ∷ h) ≡ none
      → azure (opens p ∷ opens client ∷ h) ≡ some e
      → held same_part azure r (closes client ∷ opens p ∷ opens client ∷ h)
        ≡ held same_part azure r h
  unfolding held same_part
  refused-held client r h e other c o = cc other
  refused-held sender client h e other c o = ground (arith, c, o)
  refused-held sender sender h e other c o = ground (arith, c, o)
  refused-held sender receiver h e other c o = ground (arith, c, o)
  refused-held receiver client h e other c o = ground (arith, c, o)
  refused-held receiver sender h e other c o = ground (arith, c, o)
  refused-held receiver receiver h e other c o = ground (arith, c, o)

  unopened-held :
      (r : Part) (h : List (Use Part)) (e : Text)
      → azure (opens client ∷ h) ≡ some e
      → held same_part azure r (opens client ∷ h) ≡ held same_part azure r h
  unfolding held same_part
  unopened-held client h e c = ground (arith, c)
  unopened-held sender h e c = ground (arith, c)
  unopened-held receiver h e c = ground (arith, c)

  part_opened-IsClean :
      (p : Part) (h : List (Use Part))
      → same_part client p ≡ false
      → azure (opens client ∷ h) ≡ none
      → (o : Option Text) → azure (opens p ∷ opens client ∷ h) ≡ o
      → IsClean h (part_opened azure p o (opens p ∷ opens client ∷ h))
  unfolding part_opened
  part_opened-IsClean p h other c none e =
      let (clients, parts) = opened-held p h other c e in
      (clients, parts, λ r. opened-closed p r h other c e)
  part_opened-IsClean p h other c (some x) e = λ r. refused-held p r h x other c e

  with_client-IsClean :
      (p : Part) (h : List (Use Part))
      → same_part client p ≡ false
      → (o : Option Text) → azure (opens client ∷ h) ≡ o
      → IsClean h (with_client azure p (client_error azure o) (opens client ∷ h))
  unfolding with_client client_error
  with_client-IsClean p h other none e =
      part_opened-IsClean p h other e (azure (opens p ∷ opens client ∷ h)) refl
  with_client-IsClean p h other (some x) e = λ r. unopened-held r h x e

  new_client-IsClean :
      (p : Part) (h : List (Use Part))
      → same_part client p ≡ false
      → (let (failure, h') = new_client azure h in IsClean h (with_client azure p failure h'))
  unfolding new_client
  new_client-IsClean p h other = with_client-IsClean p h other (azure (opens client ∷ h)) refl

  namespace-IsClean :
      (p : Part) (fqdn : Text) (has_credential : Bool) (h : List (Use Part))
      → same_part client p ≡ false
      → (let (failure, h') = new_client_from_namespace azure fqdn has_credential h in
          IsClean h (with_client azure p failure h'))
  unfolding new_client_from_namespace with_client
  namespace-IsClean p fqdn has_credential h other = elim (Bool-cases (is_blank fqdn)) [
    | inl blank ↦ rw blank (λ r. refl)
    | inr named ↦ elim (Bool-cases has_credential) [
      | inl given ↦ rw (named, given) (new_client-IsClean p h other)
      | inr missing ↦ rw (named, missing) (λ r. refl)
    ]
  ]

  -- Whichever constructor is called, an error leaves as many clients, senders and receivers open as before: the
  -- client is closed when its part cannot be opened. What is built has its part and its client open, and its
  -- Close leaves as many open as before the constructor, also if a part of it fails.
  pub construct-IsClean : (k : Constructor) (h : List (Use Part)) → IsClean h (construct azure k h)
  unfolding construct new_from_connection_string new_receiver_from_connection_string
      new_dead_letter_queue_from_connection_string new_from_namespace new_receiver_from_namespace
      new_dead_letter_queue_from_namespace same_part
  construct-IsClean queue_of_connection_string h = new_client-IsClean sender h refl
  construct-IsClean receiver_of_connection_string h = new_client-IsClean receiver h refl
  construct-IsClean dead_letter_of_connection_string h = new_client-IsClean sender h refl
  construct-IsClean (queue_of_namespace fqdn has_credential name) h =
      elim (Bool-cases (is_blank name)) [
        | inl blank ↦ rw blank (λ r. refl)
        | inr named ↦ rw named (namespace-IsClean sender fqdn has_credential h refl)
      ]
  construct-IsClean (receiver_of_namespace fqdn has_credential name) h =
      elim (Bool-cases (is_blank name)) [
        | inl blank ↦ rw blank (λ r. refl)
        | inr named ↦ rw named (namespace-IsClean receiver fqdn has_credential h refl)
      ]
  construct-IsClean (dead_letter_of_namespace fqdn has_credential name) h =
      elim (Bool-cases (is_blank name)) [
        | inl blank ↦ rw blank (λ r. refl)
        | inr named ↦ rw named (namespace-IsClean sender fqdn has_credential h refl)
      ]
