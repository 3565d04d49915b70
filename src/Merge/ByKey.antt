-- ===== src/Merge/ByKey.antt =====
-- Tolerations and host aliases: joined through one map, listed and sorted by key.
use nacos_operator.Prelude.{
  String, ◌≡◌, refl, ap, ◌∙◌, Option, none, some, List, [], ◌∷◌, ◌==◌, eq_iff, if◌then◌else◌, arith,
}
use nacos_operator.GoMap.{GoMap, lookup, assign, IsMap, RangeOrder, lookup-assign, assign-IsMap}
use nacos_operator.GoMap.Sorting.{find_by, find_last, IsSorted}
use nacos_operator.GoMap.Loops.{create_from, create_map}
use nacos_operator.GoMap.Keyed.{
  or_else, IsKeyed, lookup-create_from, lookup-create_map, create_from-IsMap, create_map-IsMap,
}
use nacos_operator.GoMap.Listed.{
  find_by-listed, listed-IsSorted, create_map-IsKeyed, create_from-IsKeyed,
}
use nacos_operator.Types.{Toleration, HostAlias}
use nacos_operator.Merge.Scalars.{append_missing}
use nacos_operator.Merge.Pods.{tolerations, host_aliases, add_host_alias, add_host_aliases}

module _ (order : RangeOrder) (ds os : List Toleration) where
  abbrev key : Toleration → String
  key t = t.key

  tolerations-IsMap : IsMap (create_from key (create_map key ds) os)
  tolerations-IsMap = create_from-IsMap key os (create_map key ds) (create_map-IsMap key ds)

  tolerations-IsKeyed : IsKeyed key (create_from key (create_map key ds) os)
  tolerations-IsKeyed = create_from-IsKeyed key os (create_map key ds) (create_map-IsKeyed key ds)

  -- The merged tolerations are sorted by key, no key twice; each key has the last override of that
  -- key, or else its last default.
  pub tolerations-joined :
      IsSorted (λ t. t.key) (tolerations order ds os)
      × ((k : String)
          → find_by (λ t. t.key) k (tolerations order ds os)
            ≡ or_else (find_last (λ t. t.key) k os) (find_last (λ t. t.key) k ds))
  unfolding tolerations
  tolerations-joined = (
    listed-IsSorted key order 0 _ tolerations-IsMap tolerations-IsKeyed,
    λ k.
        find_by-listed key order 0 _ tolerations-IsMap tolerations-IsKeyed k
        ∙ lookup-create_from key k os (create_map key ds)
        ∙ ap (λ o. or_else (find_last key k os) o) (lookup-create_map key k ds),
  )

abbrev ip : HostAlias → String
ip a = a.ip

add_host_alias-IsMap : (o : HostAlias) (m : GoMap HostAlias) → IsMap m → IsMap (add_host_alias o m)
unfolding add_host_alias
add_host_alias-IsMap o m h = go (lookup o.ip m)
  where
    go :
        (found : Option HostAlias)
        → IsMap (elim found [
          | some a ↦
              assign o.ip
                (record { ip = o.ip; hostnames = append_missing a.hostnames o.hostnames })
                m
          | none ↦ assign o.ip o m
        ])
    go none = assign-IsMap o.ip o m h
    go (some a) =
        assign-IsMap o.ip (record { ip = o.ip; hostnames = append_missing a.hostnames o.hostnames })
          m h

-- The alias that an override leaves at its address.
abbrev joined_alias : Option HostAlias → HostAlias → HostAlias
joined_alias none o = o
joined_alias (some a) o = record { ip = o.ip; hostnames = append_missing a.hostnames o.hostnames }

lookup-add_host_alias :
    (o : HostAlias) (m : GoMap HostAlias) (k : String)
    → lookup k (add_host_alias o m)
      ≡ (if o.ip == k then some (joined_alias (lookup o.ip m) o) else lookup k m)
unfolding add_host_alias
lookup-add_host_alias o m k =
    ground (arith, lookup-assign o.ip k (joined_alias (lookup o.ip m) o) m)

add_host_aliases-IsMap :
    (os : List HostAlias) (m : GoMap HostAlias) → IsMap m → IsMap (add_host_aliases m os)
unfolding add_host_aliases
add_host_aliases-IsMap [] m h = h
add_host_aliases-IsMap (o ∷ os) m h =
    add_host_aliases-IsMap os (add_host_alias o m) (add_host_alias-IsMap o m h)

add_host_alias-IsKeyed :
    (o : HostAlias) (m : GoMap HostAlias) → IsKeyed ip m → IsKeyed ip (add_host_alias o m)
add_host_alias-IsKeyed o m kd k v e =
    ground (arith, lookup-add_host_alias o m k, eq_iff o.ip k, kd k v)

add_host_aliases-IsKeyed :
    (os : List HostAlias) (m : GoMap HostAlias) → IsKeyed ip m → IsKeyed ip (add_host_aliases m os)
unfolding add_host_aliases
add_host_aliases-IsKeyed [] m kd = kd
add_host_aliases-IsKeyed (o ∷ os) m kd =
    add_host_aliases-IsKeyed os (add_host_alias o m) (add_host_alias-IsKeyed o m kd)

-- The alias that the overrides of an address leave there, one after the other.
abbrev pub layered : String → Option HostAlias → List HostAlias → Option HostAlias
layered k found [] = found
layered k found (o ∷ os) = layered k (if o.ip == k then some (joined_alias found o) else found) os

lookup-add_host_aliases :
    (os : List HostAlias) (m : GoMap HostAlias) (k : String)
    → lookup k (add_host_aliases m os) ≡ layered k (lookup k m) os
unfolding add_host_aliases
lookup-add_host_aliases [] m k = refl
lookup-add_host_aliases (o ∷ os) m k =
    lookup-add_host_aliases os (add_host_alias o m) k
    ∙ ap (λ found. layered k found os) (ground (arith, lookup-add_host_alias o m k, eq_iff o.ip k))

-- The merged aliases are sorted by address, no address twice; at each address stands the last
-- default, with the new hostnames of each override of that address appended in turn.
pub host_aliases-joined :
    (order : RangeOrder) (ds os : List HostAlias)
    → IsSorted (λ a. a.ip) (host_aliases order ds os)
      × ((k : String)
          → find_by (λ a. a.ip) k (host_aliases order ds os)
            ≡ layered k (find_last (λ a. a.ip) k ds) os)
unfolding host_aliases
host_aliases-joined order ds os =
    let m : GoMap HostAlias = add_host_aliases (create_map ip ds) os in
    let is_map : IsMap m = add_host_aliases-IsMap os (create_map ip ds) (create_map-IsMap ip ds) in
    let keyed : IsKeyed ip m =
      add_host_aliases-IsKeyed os (create_map ip ds) (create_map-IsKeyed ip ds) in
    (
      listed-IsSorted ip order 0 m is_map keyed,
      λ k.
          find_by-listed ip order 0 m is_map keyed k
          ∙ lookup-add_host_aliases os (create_map ip ds) k
          ∙ ap (λ found. layered k found os) (lookup-create_map ip k ds),
    )
