-- ===== src/Config/Watcher.antt =====
-- config_loader.py, `ConfigWatcher`: when a file that changes is loaded and published. The file system
-- is a list of looks at the file.
use mcp_mux_2_0_dev.Base.{
  ℕ, ◌≡◌, refl, subst, inl, inr, Option, none, some, List, [], ◌∷◌, Bool, false, map, nat_beq,
  nat_beq_iff, All, Bool-cases, if◌then◌else◌,
}
use mcp_mux_2_0_dev.Config.{RouterConfig}
use mcp_mux_2_0_dev.Config.Fields.{ConfigLib}
use mcp_mux_2_0_dev.Config.Models.{validate_config}
use mcp_mux_2_0_dev.Config.Rules.{never}

-- One look: the file is missing, or it has a modification time and a content; the content is none if
-- it cannot be read, is no YAML, or names a variable that is not set.
pub data Look : Type 0 where
  missing : Look
  present : ℕ → Option RouterConfig → Look

-- `load_router_config`, from the expanded content on
unfoldable pub load_router_config : ConfigLib → Option RouterConfig → Option RouterConfig
unfolding validate_config
load_router_config lib none = none
load_router_config lib (some content) = validate_config lib content

abbrev pub is_last : Option ℕ → ℕ → Bool
is_last none mtime = false
is_last (some last) mtime = nat_beq mtime last

-- `_reload_if_changed`: the new `_last_mtime`, and the configuration that is given to the callback
unfoldable pub reload_if_changed : ConfigLib → Look → Option ℕ → Option ℕ × Option RouterConfig
unfolding load_router_config
reload_if_changed lib missing last = (last, none)
reload_if_changed lib (present mtime content) last =
    if is_last last mtime then (last, none) else (some mtime, load_router_config lib content)

pub data Start : Type 0 where
  -- loading raises ValueError
  fails : Start
  starts : Option ℕ → Option RouterConfig → Start

abbrev pub started : ℕ → Option RouterConfig → Start
started mtime none = fails
started mtime (some config) = starts (some mtime) (some config)

-- `start`, up to the poll loop; the modification time is read after the callback
unfoldable pub start : ConfigLib → Look → ℕ → Start
unfolding load_router_config
start lib missing mtime = starts none none
start lib (present seen content) mtime = started mtime (load_router_config lib content)

abbrev pub publish : Option RouterConfig → List RouterConfig → List RouterConfig
publish none published = published
publish (some config) published = config ∷ published

-- `_poll_loop`: the configurations that are published, in order
unfoldable pub poll_loop : ConfigLib → Option ℕ → List Look → List RouterConfig
unfolding reload_if_changed
poll_loop lib last [] = []
poll_loop lib last (look ∷ looks) =
    let (last', config) = reload_if_changed lib look last in
    publish config (poll_loop lib last' looks)

-- a configuration that validation let through
abbrev pub IsLoaded : ConfigLib → RouterConfig → Type 0
IsLoaded lib config = (content : RouterConfig) × (validate_config lib content ≡ some config)

load-IsLoaded :
    (lib : ConfigLib) (content : Option RouterConfig) {config : RouterConfig}
    → load_router_config lib content ≡ some config
    → IsLoaded lib config
unfolding load_router_config
load-IsLoaded lib none e = never e
load-IsLoaded lib (some content) e = (content, e)

-- Only configurations that validation let through are ever published.
pub poll_loop-IsLoaded :
    (lib : ConfigLib) (last : Option ℕ) (looks : List Look)
    → All (IsLoaded lib) (poll_loop lib last looks)
unfolding poll_loop
poll_loop-IsLoaded lib last [] = tt
poll_loop-IsLoaded lib last (missing ∷ looks) = poll_loop-IsLoaded lib last looks
poll_loop-IsLoaded lib last (present mtime content ∷ looks) =
    elim (Bool-cases (is_last last mtime)) [
      | inl same ↦ rw same (poll_loop-IsLoaded lib last looks)
      | inr new ↦ rw new (
          publishes (load_router_config lib content) refl (poll_loop lib (some mtime) looks)
            (poll_loop-IsLoaded lib (some mtime) looks))
    ]
  where
    publishes :
        (loaded : Option RouterConfig)
        → load_router_config lib content ≡ loaded
        → (rest : List RouterConfig) → All (IsLoaded lib) rest
        → All (IsLoaded lib) (publish loaded rest)
    publishes none e rest h = h
    publishes (some config) e rest h = (load-IsLoaded lib content e, h)

-- While a file keeps its modification time it is not loaded again.
poll_loop-once :
    (lib : ConfigLib) (mtime : ℕ) (contents : List (Option RouterConfig))
    → poll_loop lib (some mtime) (map (present mtime) contents) ≡ []
unfolding poll_loop reload_if_changed
poll_loop-once lib mtime [] = refl
poll_loop-once lib mtime (content ∷ contents) =
    rw ((nat_beq_iff mtime mtime).1 refl) (poll_loop-once lib mtime contents)

-- What is written between the load in `start` and its reading of the modification time is never
-- published: whatever the file has held since that time, the poll loop publishes nothing as long as
-- the file is not written again.
pub start-misses :
    (lib : ConfigLib) (seen mtime : ℕ) (content : Option RouterConfig)
    (contents : List (Option RouterConfig)) {last : Option ℕ} {first : Option RouterConfig}
    → start lib (present seen content) mtime ≡ starts last first
    → poll_loop lib last (map (present mtime) contents) ≡ []
unfolding start
start-misses lib seen mtime content contents {last} {first} e =
    misses (load_router_config lib content) e
  where
    misses :
        (loaded : Option RouterConfig)
        → started mtime loaded ≡ starts last first
        → poll_loop lib last (map (present mtime) contents) ≡ []
    misses none e = cc
    misses (some config) e =
        let same : some mtime ≡ last = cc in
        subst (λ l. poll_loop lib l (map (present mtime) contents) ≡ []) same
          (poll_loop-once lib mtime contents)
