-- ===== src/Server/Tunnel/Cleanup.antt =====
-- What `cleanup_expired` of tunnel.rs takes away, and what it leaves.
use war3_battle_tool.Prelude.{
  ◌≡◌, refl, String, none, List, [], ◌∷◌, any, not, ltb, arith, ◌==◌, string_eq, if◌then◌else◌,
  eq_iff,
}
use war3_battle_tool.HashMap.{HashMap, get, remove}
use war3_battle_tool.HashMap.Laws.{get-remove}
use war3_battle_tool.HashMap.Unique.{HasUniqueKeys, keep_if, holds, get-retain}
use war3_battle_tool.Server.Time.{Instant, elapsed}
use war3_battle_tool.Server.Tunnel.{
  TunnelState, WaitingPeer, upnp_pending_ttl, is_stale, expired_tokens, remove_all, cleanup_expired,
}

pub get-remove_all {ℓ} :
    {V : Type ℓ} (j : String) (tokens : List String) (m : HashMap String V)
    → get j (remove_all tokens m) ≡ (if any (λ i. i == j) tokens then none else get j m)
unfolding remove_all
get-remove_all j [] m = refl
get-remove_all j (token ∷ tokens) m =
    ground (arith, get-remove_all j tokens (remove token m), get-remove token j m)

expired_tokens_lem :
    (now : Instant) (j : String) (waiting : HashMap String WaitingPeer)
    → HasUniqueKeys waiting
    → any (λ i. i == j) (expired_tokens now waiting) ≡ holds (is_stale now) (get j waiting)
unfolding expired_tokens get
expired_tokens_lem now j [] u = refl
expired_tokens_lem now j ((token, w) ∷ waiting) u =
    ground (arith, expired_tokens_lem now j waiting u.1, eq_iff token j)

-- Where the tables hold each token once, the cleanup takes away the ends that have waited longer
-- than the timeout, with their bindings, and the notices as old as their time to live; it keeps all
-- other entries as they are, among them the binding of every token that nobody waits for.
pub cleanup_expired_lem :
    (now : Instant) (token : String) (s : TunnelState)
    → HasUniqueKeys s.waiting
    → HasUniqueKeys s.upnp_pending
    → (get token (cleanup_expired now s).waiting
        ≡ keep_if (λ w. not (is_stale now w)) (get token s.waiting))
      × (get token (cleanup_expired now s).token_bindings ≡ (
          if holds (is_stale now) (get token s.waiting) then none else get token s.token_bindings))
      × (get token (cleanup_expired now s).upnp_pending
          ≡ keep_if
              (λ p. ltb (elapsed now p.created_at) upnp_pending_ttl)
              (get token s.upnp_pending))
unfolding cleanup_expired
cleanup_expired_lem now token s u v = (
  ground (
    arith,
    get-remove_all token (expired_tokens now s.waiting) s.waiting,
    expired_tokens_lem now token s.waiting u,
  ),
  ground (
    arith,
    get-remove_all token (expired_tokens now s.waiting) s.token_bindings,
    expired_tokens_lem now token s.waiting u,
  ),
  get-retain (λ t p. ltb (elapsed now p.created_at) upnp_pending_ttl) token s.upnp_pending v,
)
