-- ===== src/Driver/Adapter.antt =====
-- The life of the device in driver/src/Driver.cpp: DeviceAdd, InitAdapter, FinishInit, CreateMonitor and the callbacks that
-- reach an IndirectDeviceContext through the wrapper of an object. Handles are numbers; what WDF and IddCx report is
-- an argument of each call.
pub mod Bound
use m_extender.Prelude.{
  ℕ, zero, suc, ◌+◌, Bool, true, false, not, ◌&&◌, ◌||◌, List, [], ◌∷◌, ◌++◌, Option, none, some,
  ◌==◌, if◌then◌else◌,
}
use m_extender.Driver.Options.{Configuration}
use m_extender.Driver.Chains.{Context, Released, nothing, assign_swap_chain, unassign_swap_chain}

pub data Status : Type 0 where
  success : Status
  invalid_device_state : Status
  insufficient_resources : Status
  not_implemented : Status
  failure : Status

-- `present` says whether there is an IndirectDeviceContext for the device; `wrapped` has the objects whose wrapper
-- points to it.
pub record Device : Type 0 where
  pub present : Bool
  pub adapter : Option ℕ
  pub monitors : List ℕ
  pub display_count : ℕ
  pub wrapped : List ℕ
  pub context : Context

-- `monitor_create i` is the handle of the i-th monitor, if it can be created; `has_wrapper` says whether
-- WdfObjectGet_IndirectDeviceContextWrapper of a handle is not null.
pub record Answers : Type 0 where
  pub driver_create : Bool
  pub idd_initialize : Bool
  pub init_config : Bool
  pub device_create : Bool
  pub device_initialize : Bool
  pub adapter_init : Option ℕ
  pub monitor_create : ℕ → Option ℕ
  pub monitor_arrival : ℕ → Bool
  pub has_wrapper : ℕ → Bool

unfoldable pub driver_entry : Answers → Status
driver_entry a = if a.driver_create && a.idd_initialize then success else failure

-- The handle of the device is `object`.
unfoldable pub device_add : Answers → ℕ → Device → Device × Status
device_add a object d =
    if not (a.init_config && a.device_create && a.device_initialize)
    then (d, failure)
    else if a.has_wrapper object
    then (record d { present = true; wrapped = object ∷ d.wrapped }, success)
    else (d, insufficient_resources)

-- The cleanup callback of the device deletes its context, which stops every processor.
unfoldable pub cleanup : Device → Device
cleanup d = record d {
  present = false;
  wrapped = [];
  context = record d.context { processors = [] };
}

-- pContext->pContext = this, if there is a wrapper.
unfoldable pub wrap : Answers → ℕ → Device → Device
wrap a object d = if a.has_wrapper object then record d { wrapped = object ∷ d.wrapped } else d

unfoldable pub adapter_created : Answers → Option ℕ → Device → Device
unfolding wrap
adapter_created a none d = d
adapter_created a (some object) d = wrap a object (record d { adapter = some object })

-- InitAdapter, with the configuration that LoadConfiguration gives.
unfoldable pub init_adapter : Answers → Configuration → Device → Device
unfolding adapter_created
init_adapter a c d =
    adapter_created a a.adapter_init (record d { display_count = c.m_display_count })

unfoldable pub monitor_created : Answers → Option ℕ → Device → Device
unfolding wrap
monitor_created a none d = d
monitor_created a (some object) d =
    wrap a object (record d { monitors = d.monitors ++ object ∷ [] })

-- CreateMonitor; what the arrival reports changes nothing.
unfoldable pub create_monitor : Answers → ℕ → Device → Device
unfolding monitor_created
create_monitor a index d = monitor_created a (a.monitor_create index) d

-- The loop of FinishInit: `n` more monitors, from index i on.
unfoldable pub create_monitors : Answers → ℕ → ℕ → Device → Device
unfolding create_monitor
create_monitors a zero i d = d
create_monitors a (suc n) i d = create_monitors a n (i + 1) (create_monitor a i d)

unfoldable pub finish_init : Answers → Device → Device
unfolding create_monitors
finish_init a d = create_monitors a d.display_count 0 d

-- WdfObjectGet_IndirectDeviceContextWrapper(object), and its pContext.
unfoldable pub reaches : ℕ → List ℕ → Bool
reaches object [] = false
reaches object (o ∷ wrapped) = object == o || reaches object wrapped

unfoldable pub d0_entry : Answers → Configuration → ℕ → Device → Device × Status
unfolding init_adapter reaches
d0_entry a c object d =
    if d.present && reaches object d.wrapped then (init_adapter a c d, success) else (d, success)

-- `ok` is whether the adapter's initialisation succeeded.
unfoldable pub adapter_init_finished : Answers → Bool → ℕ → Device → Device × Status
unfolding finish_init reaches
adapter_init_finished a ok object d =
    if ok && d.present && reaches object d.wrapped then (finish_init a d, success) else (d, success)

unfoldable pub adapter_commit_modes : Device → Device × Status
adapter_commit_modes d = (d, success)

unfoldable pub monitor_get_default_modes : Device → Device × Status
monitor_get_default_modes d = (d, not_implemented)

-- The callback for a new swap-chain; `init` is what Init of a new Direct3D device would give.
unfoldable pub monitor_assign_swap_chain :
    Option ℕ → ℕ → ℕ → ℕ → Device → Device × Released × Status
unfolding assign_swap_chain reaches
monitor_assign_swap_chain init object swap_chain luid d =
    let r = assign_swap_chain init object swap_chain luid d.context in
    if d.present && reaches object d.wrapped
    then (record d { context = r.0 }, r.1, success)
    else (d, nothing, invalid_device_state)

unfoldable pub monitor_unassign_swap_chain : ℕ → Device → Device × Released × Status
unfolding unassign_swap_chain reaches
monitor_unassign_swap_chain object d =
    let r = unassign_swap_chain object d.context in
    if d.present && reaches object d.wrapped
    then (record d { context = r.0 }, r.1, success)
    else (d, nothing, invalid_device_state)
