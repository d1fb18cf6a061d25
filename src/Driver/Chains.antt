-- ===== src/Driver/Chains.antt =====
-- driver/src/Driver.cpp: the swap-chain processors of the monitors and the cache of Direct3D devices. The maps are
-- association lists; the processors that a step destroys, which stops their threads, are named in its result.
pub mod Assigned
pub mod Leaks
pub mod Refine
use m_extender.Prelude.{
  ℕ, Bool, true, false, List, [], ◌∷◌, ◌++◌, Option, none, some, ◌==◌, if◌then◌else◌,
}

-- m_ProcessingThreads and s_DeviceCache, keyed by monitor and by adapter; a processor is its swap-chain.
pub record Context : Type 0 where
  pub processors : List (ℕ × ℕ)
  pub devices : List (ℕ × ℕ)

unfoldable pub find : ℕ → List (ℕ × ℕ) → Option ℕ
find key [] = none
find key ((k, v) ∷ m) = if k == key then some v else find key m

-- `map[key] = value`.
unfoldable pub put : ℕ → ℕ → List (ℕ × ℕ) → List (ℕ × ℕ)
put key value [] = (key, value) ∷ []
put key value ((k, v) ∷ m) = if k == key then (key, value) ∷ m else (k, v) ∷ put key value m

unfoldable pub erase : ℕ → List (ℕ × ℕ) → List (ℕ × ℕ)
erase key [] = []
erase key ((k, v) ∷ m) = if k == key then m else (k, v) ∷ erase key m

-- What a step releases: a swap-chain object deleted, or a processor stopped.
pub data Released : Type 0 where
  nothing : Released
  swap_chain_deleted : ℕ → Released
  processor_stopped : ℕ → Released

unfoldable pub released : Option ℕ → Released
released none = nothing
released (some p) = processor_stopped p

-- GetOrCreateDevice, when Init of a new device gives `init`.
unfoldable pub get_or_create_device : Option ℕ → ℕ → Context → Context × Option ℕ
unfolding find put
get_or_create_device init adapter c = elim (find adapter c.devices) [
  | some d ↦ (c, some d)
  | none ↦ elim init [
    | none ↦ (c, none)
    | some d ↦ (record c { devices = put adapter d c.devices }, some d)
  ]
]

unfoldable pub with_device : ℕ → ℕ → Context × Option ℕ → Context × Released
with_device monitor swap_chain (c, none) = (c, swap_chain_deleted swap_chain)
with_device monitor swap_chain (c, some d) = (
  record c { processors = put monitor swap_chain c.processors },
  released (find monitor c.processors),
)

unfoldable pub assign_swap_chain : Option ℕ → ℕ → ℕ → ℕ → Context → Context × Released
unfolding get_or_create_device with_device
assign_swap_chain init monitor swap_chain adapter c =
    with_device monitor swap_chain (get_or_create_device init adapter c)

unfoldable pub unassign_swap_chain : ℕ → Context → Context × Released
unassign_swap_chain monitor c =
    (record c { processors = erase monitor c.processors }, released (find monitor c.processors))

unfoldable pub stop_all : List (ℕ × ℕ) → List Released
stop_all [] = []
stop_all ((monitor, swap_chain) ∷ m) = processor_stopped swap_chain ∷ stop_all m

-- ~IndirectDeviceContext.
unfoldable pub destroy_context : Context → Context × List Released
unfolding stop_all
destroy_context c = (record c { processors = [] }, stop_all c.processors)
