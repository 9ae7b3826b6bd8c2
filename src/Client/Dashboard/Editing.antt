-- ===== src/Client/Dashboard/Editing.antt =====
-- What the dashboard may do to the routes and to the configuration file.
use etunl_cli.Base.{
  ◌≡◌, ◌≢◌, ◌⊎◌, ◌∙◌, ap, refl, sym, inl, inr, Bool-cases, true, not, ◌||◌, Option-cases, Option,
  some, none, Result-cases, ok, ◌=?◌, if_split, not-false, true_ne_false,
}
use etunl_cli.Base.Bytes.{Bytes, codes, bytes_is_eq, bytes_eq_iff, is_empty, cut_prefix}
use etunl_cli.Config.Auth.{Route, http, validate, validate_route}
use etunl_cli.Config.Files.{SaveError, save_config, load_file}
use etunl_cli.Config.Files.Outcomes.{
  Written, Torn, save_config-Written, save_config-failed, load_file-written,
}
use etunl_cli.Config.Routes.{ClientConfig, add_route, remove_route}
use etunl_cli.Config.Routes.Checking.{
  IsValid, IsLoadable, add_route-IsLoadable, remove_route-IsLoadable,
}
use etunl_cli.Server.Http.{Request}
use etunl_cli.Client.Dashboard.{
  Board, Outside, Reply, after_save, saved, or_http, auth_allowed, insert_route, checked_post,
  decoded_post, post_route, api_routes, deleted, api_route, serve_board, handle_board, knows_token,
}

-- What a call leaves: a configuration that LoadClientConfig takes, and a file that is as it was, or
-- holds this configuration, or a beginning of it.
pub record Kept (o : Outside) (b b' : Board) : Type 0 where
  pub current : IsLoadable b'.cfg
  pub file : (b'.file ≡ b.file) ⊎ Written o.saving b'.cfg b'.file ⊎ Torn o.saving b'.cfg b'.file

auth_allowed-IsValid : (r : Route) → auth_allowed r ≡ true → IsValid r
unfolding auth_allowed validate_route
auth_allowed-IsValid r h = elim (Option-cases r.auth) [
  | inl absent ↦ rw (validate_route, absent) refl
  | inr (a, present) ↦ elim (Bool-cases (r.type =? http)) [
    | inr other ↦ absurd (true_ne_false (sym (rw (auth_allowed, present, other) at h)))
    | inl over_http ↦ elim (Option-cases (validate (some a))) [
      | inl clean ↦ rw (validate_route, present, over_http, clean) refl
      | inr (e, bad) ↦
          absurd (true_ne_false (sym (rw (auth_allowed, present, over_http, bad) at h)))
    ]
  ]
]

module _ (o : Outside) (b : Board) (good : IsLoadable b.cfg) where
  untouched : Kept o b b
  untouched = record { current = good; file = inl refl }

  after_save-Kept :
      (cfg : ClientConfig) (reply : Reply) (out : Option Bytes × Option SaveError)
      → IsLoadable cfg
      → save_config o.saving cfg b.file ≡ out
      → Kept o b (after_save (record b { cfg = cfg }) reply out).0
  unfolding after_save
  after_save-Kept cfg reply (file, none) h same = record {
    current = h;
    file = inr (inl (save_config-Written o.saving cfg b.file file same));
  }
  after_save-Kept cfg reply (file, some e) h same = record {
    current = h;
    file = elim (save_config-failed o.saving cfg b.file file e same) [
      | inl as_before ↦ inl as_before
      | inr torn ↦ inr (inr torn)
    ];
  }

  saved-Kept :
      (cfg : ClientConfig) (reply : Reply)
      → IsLoadable cfg
      → Kept o b (saved o (record b { cfg = cfg }) reply).0
  unfolding saved
  saved-Kept cfg reply h = after_save-Kept cfg reply _ h refl

  insert-Kept : (r : Route) → IsValid r → Kept o b (insert_route o r b).0
  unfolding insert_route
  insert-Kept r valid = elim (Result-cases (add_route b.cfg r)) [
    | inr (e, taken) ↦ rw (insert_route, taken) untouched
    | inl (cfg, added) ↦
        rw (insert_route, added)
          (saved-Kept cfg _ (add_route-IsLoadable b.cfg cfg r good valid added))
  ]

  deleted-Kept : (name : Bytes) → Kept o b (deleted o name b).0
  unfolding deleted
  deleted-Kept name = elim (Result-cases (remove_route b.cfg name)) [
    | inr (e, unknown) ↦ rw (deleted, unknown) untouched
    | inl (cfg, removed) ↦
        rw (deleted, removed)
          (saved-Kept cfg _ (remove_route-IsLoadable b.cfg cfg name good removed))
  ]

  checked-Kept : (r : Route) → Kept o b (checked_post o r b).0
  unfolding checked_post
  checked-Kept r =
      if_split (λ (out : Board × Reply). Kept o b out.0) (not (auth_allowed r)) (λ _. untouched)
        (λ allowed. insert-Kept r (auth_allowed-IsValid r (not-false allowed)))

  decoded-Kept : (d : Option Route) → Kept o b (decoded_post o d b).0
  unfolding decoded_post
  decoded-Kept none = untouched
  decoded-Kept (some r) =
      if_split (λ (out : Board × Reply). Kept o b out.0) (is_empty r.name || is_empty r.target)
        (λ _. untouched) (λ _. checked-Kept (or_http r))

  post-Kept : (r : Request) → Kept o b (post_route o r b).0
  unfolding post_route
  post-Kept r = elim (Option-cases r.body) [
    | inl unread ↦ rw (post_route, unread) untouched
    | inr (body, given) ↦ rw (post_route, given) (decoded-Kept (o.unmarshal body))
  ]

  api_routes-Kept : (r : Request) → Kept o b (api_routes o r b).0
  unfolding api_routes
  api_routes-Kept r =
      if_split (λ (out : Board × Reply). Kept o b out.0) (r.method =? codes "GET") (λ _. untouched)
        (λ _.
          if_split (λ (out : Board × Reply). Kept o b out.0) (r.method =? codes "POST")
            (λ _. post-Kept r) (λ _. untouched))

  api_route-Kept : (r : Request) (name : Bytes) → Kept o b (api_route o r name b).0
  unfolding api_route
  api_route-Kept r name =
      if_split (λ (out : Board × Reply). Kept o b out.0) (not (r.method =? codes "DELETE"))
        (λ _. untouched)
        (λ _.
          if_split (λ (out : Board × Reply). Kept o b out.0) (is_empty name) (λ _. untouched)
            (λ _. deleted-Kept name))

  serve-Kept : (r : Request) → Kept o b (serve_board o r b).0
  unfolding serve_board
  serve-Kept r =
      if_split (λ (out : Board × Reply). Kept o b out.0) (r.path =? codes "/api/status")
        (λ _. untouched)
        (λ _.
          if_split (λ (out : Board × Reply). Kept o b out.0) (r.path =? codes "/api/routes")
            (λ _. api_routes-Kept r)
            (λ _. elim (Option-cases (cut_prefix (codes "/api/routes/") r.path)) [
              | inl elsewhere ↦ rw elsewhere untouched
              | inr (name, named) ↦ rw named (api_route-Kept r name)
            ]))

-- From a configuration with unique names and valid auth blocks, every request leads to such a
-- configuration. Where yaml.Unmarshal gives back what yaml.Marshal wrote, the file is then as it was, or
-- LoadClientConfig gives, of the file, the configuration in force, or a write failed on the way and has
-- left a beginning of what yaml.Marshal gives for that configuration.
pub handle_board-IsGood :
    (unmarshal : Bytes → Option ClientConfig) (o : Outside) (r : Request) (b : Board)
    → ((c : ClientConfig) (bytes : Bytes)
        → o.saving.marshal c ≡ some bytes
        → unmarshal bytes ≡ some c)
    → IsLoadable b.cfg
    → let b' = (handle_board o r b).0 in
      IsLoadable b'.cfg
      × ((b'.file ≡ b.file)
          ⊎ (load_file unmarshal b'.file ≡ ok b'.cfg)
          ⊎ Torn o.saving b'.cfg b'.file)
unfolding handle_board
handle_board-IsGood unmarshal o r b codec good =
    let b' = (handle_board o r b).0 in
    let kept : Kept o b b' =
      if_split (λ (out : Board × Reply). Kept o b out.0) (not (knows_token b.cfg r))
        (λ _. untouched o b good) (λ _. serve-Kept o b good r) in
    (
      kept.current,
      elim kept.file [
        | inl as_before ↦ inl as_before
        | inr (inr torn) ↦ inr (inr torn)
        | inr (inl w) ↦ inr (
            inl (
              ap (load_file unmarshal) w.there
              ∙ load_file-written unmarshal b'.cfg w.bytes (codec b'.cfg w.bytes w.marshalled)
                  kept.current))
      ],
    )

-- A request that changes anything, or is answered by more than 401, carries the token as its password.
pub handle_board-token :
    (o : Outside) (r : Request) (b : Board)
    → handle_board o r b ≢ (b, Reply.unauthorized)
    → (user : Bytes) × (r.basic_auth ≡ some (user, b.cfg.token))
unfolding handle_board knows_token
handle_board-token o r b h = elim (Option-cases r.basic_auth) [
  | inl absent ↦ absurd (h (rw (handle_board, absent) refl))
  | inr ((user, password), present) ↦ elim (Bool-cases (password =? b.cfg.token)) [
    | inl same ↦ (user, rw (← (bytes_eq_iff password b.cfg.token).0 same) present)
    | inr other ↦ absurd (h (rw (handle_board, present, other) refl))
  ]
]
