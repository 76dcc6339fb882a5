-- ===== src/Gateway/Client/Laws.antt =====
-- What the clients guarantee to the gateway.
use hire_os_be.Prelude.{
  [], All, arith, Bool-cases, false, inl, inr, List, none, Option, Option-cases, refl, some, String,
  true, ℕ, ◌∷◌, ◌≡◌, ◌≢◌,
}
use hire_os_be.Prelude.{is_set, join, key_error, ok, raise, truthy}
use hire_os_be.Gateway.Provider.{anthropic, livekit_inference, Provider}
use hire_os_be.Gateway.Client.{
  api, checked, Client, complete, construct, content, fails, get_provider_client, inference, joined,
  key_name, pieces, Reply, stream_complete, unimplemented, World,
}

checked-truthy :
    (model : String) (r : Reply) (s : String) → checked model r ≡ ok s → truthy s ≡ true
unfolding checked
checked-truthy model (fails e) s h = cc
checked-truthy model (content none) s h = cc
checked-truthy model (content (some t)) s h = ground arith

-- A completion that returns has a text that is not empty.
pub complete-truthy :
    (w : World) (c : Client) (n : ℕ) (s : String) → complete w c n ≡ ok s → truthy s ≡ true
unfolding complete joined
complete-truthy w (api p model) n s h = checked-truthy model (w.reply p model n) s h
complete-truthy w (inference model) n s h =
    elim (Option-cases (w.stream livekit_inference model n).end) [
      | inl e ↦
          checked-truthy model
            (content (some (join "" (pieces (w.stream livekit_inference model n).deltas)))) s
            (ground arith)
      | inr (x, e) ↦ absurd (ground arith)
    ]
complete-truthy w (unimplemented p) n s h = cc

-- Without its key a provider that has a client class cannot be constructed: the KeyError names the
-- variable, whatever the model.
pub get_provider_client-key_error :
    (w : World) (p : Provider) (model : Option String)
    → p ≢ anthropic
    → is_set (w.env (key_name p)) ≡ false
    → get_provider_client w p model ≡ raise (key_error (key_name p))
unfolding get_provider_client construct
get_provider_client-key_error w anthropic model h k = absurd (h refl)
get_provider_client-key_error w p model h k = rw k

pub pieces-All : (l : List (Option String)) → All (λ s. truthy s ≡ true) (pieces l)
unfolding pieces
pieces-All [] = tt
pieces-All (none ∷ l) = pieces-All l
pieces-All (some s ∷ l) = elim (Bool-cases (truthy s)) [
  | inl e ↦ rw e (e, pieces-All l)
  | inr e ↦ rw e (pieces-All l)
]

-- A client never yields an empty piece.
pub stream_complete-truthy :
    (w : World) (c : Client) (n : ℕ) → All (λ s. truthy s ≡ true) (stream_complete w c n).chunks
unfolding stream_complete
stream_complete-truthy w (api p model) n = pieces-All (w.stream p model n).deltas
stream_complete-truthy w (inference model) n =
    pieces-All (w.stream livekit_inference model n).deltas
stream_complete-truthy w (unimplemented p) n = tt
