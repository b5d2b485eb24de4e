-- ===== src/Connectivity/Tests/Views.antt =====
-- The theorems on what an app sees and on the limit of requests, at concrete registries.
use agent_tunnel.Base.{◌≡◌, refl, [], ◌∷◌, All, Any, ℕ_discrete}
use agent_tunnel.Base.Text.{codes, Text-discrete}
use agent_tunnel.Base.Peer.{conn}
use agent_tunnel.Base.Dict.{lookup, has}
use agent_tunnel.Connectivity.{Registry, new_registry, LiveDaemon}
use agent_tunnel.Connectivity.Access.{visible_daemons}
use agent_tunnel.Connectivity.Access.Visibility.{
  IsVisible, visible_daemons-IsVisible, visible_daemons-Any,
}
use agent_tunnel.Connectivity.Tests.{owner, host, info, phone, fingerprint}

abbrev hosted : LiveDaemon
hosted = record {
  info = info;
  owner = host;
  peer = conn 2;
  trusted = (fingerprint, phone) ∷ [];
  connected_at = 7;
}

abbrev one_daemon : Registry
one_daemon = record new_registry { daemons = (codes "1:d", hosted) ∷ [] }

hosted-IsVisible : IsVisible one_daemon owner hosted
unfolding lookup has Text-discrete ℕ_discrete
hosted-IsVisible = (codes "1:d", refl, refl, refl)

visible_daemons-IsVisible_example :
    All
      (λ seen. (live : LiveDaemon) × (seen ≡ live.info) × IsVisible one_daemon owner live)
      (visible_daemons one_daemon owner)
unfolding lookup
visible_daemons-IsVisible_example = visible_daemons-IsVisible one_daemon owner (refl, tt)

visible_daemons-Any_example : Any (λ seen. seen ≡ info) (visible_daemons one_daemon owner)
visible_daemons-Any_example = visible_daemons-Any one_daemon owner hosted hosted-IsVisible
