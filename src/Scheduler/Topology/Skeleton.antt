-- ===== src/Scheduler/Topology/Skeleton.antt =====
-- src/scheduler/src/topology.rs, `enumerate`, on a host where src/driver/spanker_main.c was loaded: the
-- device nodes of the host are those of the devices that the module created.
use Prim.Native.String.{String}
use Prim.Native.String.{◌++◌ as str_append}
use text.Mathlib.Text.{◌==◌ as eq_string, starts_with}
use mathlib.Core.Option.{some-injective}
use spanker.Common.{
  ◌≡◌, refl, inl, inr, ◌∙◌, sym, ap, Bool, true, false, ◌||◌, List, [], ◌∷◌, some, err, pos,
}
use spanker.Driver.Lifecycle.{Kernel, unloaded, spanker_init}
use spanker.Driver.Lifecycle.Balance.{Resource, device, held}
use spanker.Driver.Lifecycle.Load.{spanker_init-Settled}
use spanker.Runtime.Control.{Host, control_device_path}
use spanker.Scheduler.Failure.{no_sails}
use spanker.Scheduler.Topology.{device_path, enumerate}
use spanker.Scheduler.Topology.Enumerate.{enumerate_missing}

abbrev pub device_nodes : List Resource → List String
device_nodes [] = []
device_nodes (device c dev name ∷ rs) = str_append "/dev/" name ∷ device_nodes rs
device_nodes (_ ∷ rs) = device_nodes rs

abbrev pub is_among : String → List String → Bool
is_among p [] = false
is_among p (node ∷ nodes) = eq_string node p || is_among p nodes

-- The paths that begin with `/dev/spanker` are the nodes of the devices that the module holds.
pub record HasNodesOf (h : Host) (rs : List Resource) : Type 0 where
  pub exists_iff :
      (p : String) → starts_with p "/dev/spanker" ≡ true → h.exists p ≡ is_among p (device_nodes rs)

-- Once the module has loaded, on a host with the device nodes that it created, the control device
-- exists, and the walk over the sails finds none.
pub enumerate-loaded :
    (k : Kernel) (h : Host) (rs : List Resource)
    → (spanker_init k unloaded).0 ≡ pos 0
    → held (spanker_init k unloaded).1.calls ≡ some rs
    → HasNodesOf h rs
    → (h.exists control_device_path ≡ true) × (enumerate h ≡ err no_sails)
unfolding held device_path
enumerate-loaded k h rs done e nodes = elim (spanker_init-Settled k unloaded refl) [
  | inr (failed, none_held) ↦ absurd (failed done)
  | inl (fine, c, pc, all) ↦
      let names : device_nodes rs ≡ "/dev/spankerctl" ∷ [] =
        ap device_nodes (some-injective _ _ (sym e ∙ all)) in
      let there : (p : String)
          → starts_with p "/dev/spanker" ≡ true
          → h.exists p ≡ is_among p ("/dev/spankerctl" ∷ []) =
        λ p begins. nodes.exists_iff p begins ∙ ap (is_among p) names in
      (there control_device_path refl, enumerate_missing h (there (device_path 0) refl))
]
