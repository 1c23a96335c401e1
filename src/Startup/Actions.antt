-- ===== src/Startup/Actions.antt =====
-- The start of the program: the libraries' state, the process's environment, and a log of what the
-- manager was given, newest first, which no code reads.
use x_cluster_link.Base.{String, Bool, Option, none, some, List, ◌∷◌, not, ◌&&◌, if◌then◌else◌}
use x_cluster_link.Base.GoMap.{Entries, put}
use x_cluster_link.Base.Text.{is_empty}
use x_cluster_link.Base.Text.Removal.{lacks}
use x_cluster_link.Kube.{Kube, Call, Reply, answer, refuse}
use x_cluster_link.Startup.Outside.{Libraries, Component}

pub data Note (Syncer : Type 0) : Type 0 where
  added : Component Syncer → Note Syncer
  manager_started : Note Syncer

pub record Machine {K : Kube} (L : Libraries K) : Type 0 where
  pub state : L.State
  pub env : Entries
  pub log : List (Note L.Syncer)

pub data Ending (A : Type 0) : Type 0 where
  next : A → Ending A
  -- os.Exit(1)
  exit : Ending A
  panic : Ending A

abbrev pub Boot : {K : Kube} → Libraries K → Type 0 → Type 0
Boot L A = Machine L → Ending A × Machine L

-- os.Setenv: a name that is empty or has '=' or NUL, or a value that has NUL, is refused, and then
-- nothing is set. main.go does not look at the error.
abbrev is_valid : String → String → Bool
is_valid name value = not (is_empty name) && lacks b'=' name && lacks 0 name && lacks 0 value

unfoldable pub set : String → String → Entries → Entries
set name value env = if is_valid name value then put name value env else env

module _ {K : Kube} {L : Libraries K} {A : Type 0} where
  unfoldable pub pure : A → Boot L A
  pure a m = (next a, m)

  unfoldable pub call : Call L.State L.Err A → Boot L (Reply L.Err A)
  call c m = let (r, s) = c m.state in (next r, record m { state = s })

  -- `if err != nil { os.Exit(1) }`
  unfoldable pub or_exit : Reply L.Err A → Boot L A
  or_exit (answer a) m = (next a, m)
  or_exit (refuse _) m = (exit, m)

  -- utilruntime.Must
  unfoldable pub must : Reply L.Err A → Boot L A
  must (answer a) m = (next a, m)
  must (refuse _) m = (panic, m)

  unfoldable pub or_panic : Option A → Boot L A
  or_panic none m = (panic, m)
  or_panic (some a) m = (next a, m)

module _ {K : Kube} {L : Libraries K} {A B : Type 0} where
  infixl 5 ◌>>=◌
  unfoldable pub ◌>>=◌ : Boot L A → (A → Boot L B) → Boot L B
  ◌>>=◌ m f w =
      let (r, w') = m w in elim r [ next a ↦ f a w' | exit ↦ (exit, w') | panic ↦ (panic, w') ]

  infixl 5 ◌>>◌
  unfoldable pub ◌>>◌ : Boot L A → Boot L B → Boot L B
  m >> k = m >>= λ _. k

module _ {K : Kube} {L : Libraries K} where
  unfoldable pub get_config : Boot L L.RestConfig
  get_config m =
      let (r, s) = L.get_config m.state in
      elim r [
        | some cfg ↦ (next cfg, record m { state = s })
        | none ↦ (exit, record m { state = s })
      ]

  unfoldable pub setenv : String → String → Boot L (Unit {0})
  unfolding set
  setenv name value m = (next tt, record m { env = set name value m.env })

  -- The environment, for a library that reads it.
  unfoldable pub environment : Boot L Entries
  environment m = (next m.env, m)

  -- A component is handed to the manager, which may refuse it.
  unfoldable pub add : Component L.Syncer → Boot L (Reply L.Err (Unit {0}))
  add c m =
      let (r, s) = L.add c m.state in
      elim r [
        | answer a ↦ (next (answer a), record m { state = s; log = Note.added c ∷ m.log })
        | refuse e ↦ (next (refuse e), record m { state = s })
      ]

  unfoldable pub start_manager : Boot L (Reply L.Err (Unit {0}))
  start_manager m =
      let (r, s) = L.start_manager m.state in
      (next r, record m { state = s; log = Note.manager_started ∷ m.log })
