-- ===== src/Merge/Clashes.antt =====
-- Where the merge package loses or reorders what it is given.
use nacos_operator.Prelude.{String, ◌≡◌, ◌≢◌, Bool, none, [], ◌∷◌, eq_iff, eq_refl, ◌+++◌, arith}
use nacos_operator.GoMap.Loops.{merged_values, merged_map}
use nacos_operator.GoMap.Orders.{in_order, swapped_at}
use nacos_operator.Types.{VolumeMount, EphemeralContainer}
use text.Mathlib.TextLemmas.{append_assoc}
use nacos_operator.Merge.Values.{volume_mount_to_string, volume_mounts, volume_mount}
use nacos_operator.Merge.Containers.{ephemeral_containers}

abbrev pub mount : String → String → String → VolumeMount
mount name path sub = record {
  name = name;
  read_only = Bool.false;
  mount_path = path;
  sub_path = sub;
  mount_propagation = none;
  sub_path_expr = "";
}

same_key :
    (n p q s : String)
    → volume_mount_to_string (mount n (p +++ "_" +++ q) s)
      ≡ volume_mount_to_string (mount n p (q +++ "_" +++ s))
unfolding volume_mount_to_string
same_key n p q s = simp append_assoc

-- Two mounts of one volume at different paths, `p_q` with the sub path `s` and `p` with the sub
-- path `q_s`, have one key: in the order of assignment, an override at the one and a default at
-- the other merge to a single mount.
pub volume_mounts_clash :
    (n p q s : String)
    → volume_mounts in_order (mount n (p +++ "_" +++ q) s ∷ []) (mount n p (q +++ "_" +++ s) ∷ [])
      ≡ volume_mount (mount n (p +++ "_" +++ q) s) (mount n p (q +++ "_" +++ s)) ∷ []
unfolding volume_mounts merged_values merged_map
volume_mounts_clash n p q s =
    ground (arith, same_key n p q s, eq_refl (volume_mount_to_string (mount n p (q +++ "_" +++ s))))

-- Two ephemeral containers of different names, laid over none, merge to different lists in two
-- orders of the last `range` loop.
pub ephemeral_containers-order_shows :
    (c d : EphemeralContainer)
    → c.common.name ≢ d.common.name
    → ephemeral_containers in_order [] (c ∷ d ∷ [])
      ≢ ephemeral_containers (swapped_at 2) [] (c ∷ d ∷ [])
unfolding ephemeral_containers merged_values merged_map
ephemeral_containers-order_shows c d h e = ground (arith, eq_iff c.common.name d.common.name)
