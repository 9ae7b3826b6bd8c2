-- ===== src/Client/Agent/Reloading.antt =====
-- What a change of the configuration file comes to.
use etunl_cli.Base.{
  ◌≡◌, ◌∙◌, refl, sym, ap, Option, none, some, List, [], ◌∷◌, ◌++◌, ok, err, append_assoc,
  append-nil, true, Option-cases, inl, inr,
}
use etunl_cli.Base.Bytes.{Bytes}
use etunl_cli.Config.Routes.{ClientConfig}
use etunl_cli.Tunnel.Frame.{Frame, frame_route_sync}
use etunl_cli.Tunnel.Mux.{Mux, send_route_sync, send_frame}
use etunl_cli.Tunnel.Conn.{Conn}
use etunl_cli.Client.Wire.{config_to_route_info}
use etunl_cli.Client.Agent.{
  Agent, Marshal, Event, sync_over, on_config_change, reload, changed, other_event, watch_error,
  stopped, watch,
}

-- The configurations that could be loaded, up to the stop.
pub accepted : List Event → List ClientConfig
accepted [] = []
accepted (changed (err e) ∷ es) = accepted es
accepted (changed (ok cfg) ∷ es) = cfg ∷ accepted es
accepted (other_event ∷ es) = accepted es
accepted (watch_error ∷ es) = accepted es
accepted (stopped ∷ es) = []

-- The last of them, or the one before them all.
pub latest : ClientConfig → List ClientConfig → ClientConfig
latest cfg [] = cfg
latest cfg (c ∷ cs) = latest c cs

abbrev pub sync_frame : Bytes → Frame
sync_frame payload = record { type = frame_route_sync; stream_id = 0; payload = payload }

-- The RouteSync frames for these configurations, none for routes that cannot be marshalled.
pub sync_frames : Marshal → List ClientConfig → List Frame
sync_frames marshal [] = []
sync_frames marshal (c ∷ cs) =
    let later = sync_frames marshal cs in
    elim (marshal (config_to_route_info c.routes)) [
      | none ↦ later
      | some payload ↦ sync_frame payload ∷ later
    ]

-- Whatever the watcher takes from its channels: the configuration in force is the last one that could
-- be loaded, and the local proxy has its routes.
pub watch-current :
    (marshal : Marshal) (es : List Event) (a : Agent)
    → a.local_routes ≡ a.current.routes
    → let a' = watch marshal es a in
      (a'.current ≡ latest a.current (accepted es)) × (a'.local_routes ≡ a'.current.routes)
unfolding watch reload on_config_change accepted latest
watch-current marshal [] a h = (refl, h)
watch-current marshal (changed (err e) ∷ es) a h = watch-current marshal es a h
watch-current marshal (changed (ok cfg) ∷ es) a h =
    watch-current marshal es (reload marshal (ok cfg) a) refl
watch-current marshal (other_event ∷ es) a h = watch-current marshal es a h
watch-current marshal (watch_error ∷ es) a h = watch-current marshal es a h
watch-current marshal (stopped ∷ es) a h = (refl, h)

abbrev payload_frames : Option Bytes → List Frame
payload_frames none = []
payload_frames (some payload) = sync_frame payload ∷ []

send_route_sync_up :
    (payload : Option Bytes) (m : Mux)
    → m.link_up ≡ true
    → ((send_route_sync payload m).0.sent ≡ m.sent ++ payload_frames payload)
      × ((send_route_sync payload m).0.link_up ≡ true)
unfolding send_route_sync send_frame
send_route_sync_up none m up = (sym (append-nil m.sent), up)
send_route_sync_up (some payload) m up = rw up (refl, refl)

sync_frames-cons :
    (marshal : Marshal) (cfg : ClientConfig) (cs : List ClientConfig)
    → payload_frames (marshal (config_to_route_info cfg.routes)) ++ sync_frames marshal cs
      ≡ sync_frames marshal (cfg ∷ cs)
unfolding sync_frames
sync_frames-cons marshal cfg cs = elim (Option-cases (marshal (config_to_route_info cfg.routes))) [
  | inl bad ↦ rw (sync_frames, bad) refl
  | inr (payload, good) ↦ rw (sync_frames, good) refl
]

-- Over a connection whose link works, each configuration that is loaded goes to the server as one
-- RouteSync frame, in order; a file that cannot be loaded sends nothing.
pub watch-sent :
    (marshal : Marshal) (es : List Event) (a : Agent) (c : Conn)
    → a.conn ≡ some c
    → c.mux.link_up ≡ true
    → (c' : Conn) × ((watch marshal es a).conn ≡ some c')
      × (c'.mux.sent ≡ c.mux.sent ++ sync_frames marshal (accepted es))
unfolding watch reload on_config_change sync_over accepted sync_frames
watch-sent marshal [] a c at up = (c, at, sym (append-nil c.mux.sent))
watch-sent marshal (changed (err e) ∷ es) a c at up = watch-sent marshal es a c at up
watch-sent marshal (changed (ok cfg) ∷ es) a c at up =
    let payload = marshal (config_to_route_info cfg.routes) in
    let (sent, up') = send_route_sync_up payload c.mux up in
    let c1 = (sync_over marshal cfg.routes c).0 in
    let (c', at', sent') = watch-sent marshal es (reload marshal (ok cfg) a) c1 (rw at refl) up' in
    (
      c',
      at',
      sent'
          ∙ ap (λ fs. fs ++ sync_frames marshal (accepted es)) sent
          ∙ append_assoc c.mux.sent (payload_frames payload) (sync_frames marshal (accepted es))
          ∙ ap (◌++◌ c.mux.sent) (sync_frames-cons marshal cfg (accepted es)),
    )
watch-sent marshal (other_event ∷ es) a c at up = watch-sent marshal es a c at up
watch-sent marshal (watch_error ∷ es) a c at up = watch-sent marshal es a c at up
watch-sent marshal (stopped ∷ es) a c at up = (c, at, sym (append-nil c.mux.sent))
