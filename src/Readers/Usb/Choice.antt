-- ===== src/Readers/Usb/Choice.antt =====
-- Which device and which interface UsbRcReader takes.
use rc_monitor.Base.{
  ◌≡◌, refl, sym, ap, ◌∙◌, inl, inr, List, [], ◌∷◌, ◌++◌, Option, none, some, Bool, true, false,
  All, ◌&&◌, ◌||◌, Bool-cases, if◌then◌else◌, ◌⊎◌,
}
use rc_monitor.Readers.Usb.{
  Device, Interface, Endpoint, Direction, dir_in, dir_out, same_direction, is_internal, is_external,
  find_from, find_dji_device, has_bulk, find_protocol_interface, find_bulk_endpoint, both_endpoints,
}

abbrev pub NotInternal : Device → Type 0
NotInternal d = is_internal d ≡ false

abbrev pub NotExternal : Device → Type 0
NotExternal d = is_external d ≡ false

-- What is chosen among the devices: the first internal one; without one, the last external one; or,
-- without either, `fallback`.
pub data Chosen (ds : List Device) (fallback : Option Device) : Option Device → Type 0 where
  internal :
      (xs ys : List Device) (d : Device)
      → ds ≡ xs ++ (d ∷ ys)
      → All NotInternal xs
      → is_internal d ≡ true
      → Chosen ds fallback (some d)
  external :
      (xs ys : List Device) (d : Device)
      → ds ≡ xs ++ (d ∷ ys)
      → All NotInternal ds
      → is_external d ≡ true
      → All NotExternal ys
      → Chosen ds fallback (some d)
  neither : All NotInternal ds → All NotExternal ds → Chosen ds fallback fallback

-- One more device in front, which is not internal.
one_more :
    (d : Device) (ds : List Device) (fallback : Option Device) (external_d : Bool)
    {x : Option Device}
    → is_internal d ≡ false
    → is_external d ≡ external_d
    → Chosen ds (if external_d then some d else fallback) x
    → Chosen (d ∷ ds) fallback x
one_more d ds fallback b n e (internal xs ys c at none_before this) =
    internal (d ∷ xs) ys c (ap (λ l. d ∷ l) at) (n, none_before) this
one_more d ds fallback b n e (external xs ys c at none_internal this none_behind) =
    external (d ∷ xs) ys c (ap (λ l. d ∷ l) at) (n, none_internal) this none_behind
one_more d ds fallback true n e (neither a b) = external [] ds d refl (n, a) e b
one_more d ds fallback false n e (neither a b) = neither (n, a) (e, b)

find_from_lem :
    (ds : List Device) (fallback : Option Device) → Chosen ds fallback (find_from ds fallback)
unfolding find_from
find_from_lem [] fallback = neither tt tt
find_from_lem (d ∷ ds) fallback = elim (Bool-cases (is_internal d)) [
  | inl yes_it_is ↦ rw yes_it_is (internal [] ds d refl tt yes_it_is)
  | inr no_it_is ↦ rw no_it_is (
      one_more d ds fallback (is_external d) no_it_is refl
        (find_from_lem ds (if is_external d then some d else fallback)))
]

-- findDjiDevice chooses, among the devices with DJI's vendor id in the order of the service, the first
-- with the internal product id; without one, the last with one of the two external product ids; and
-- null without any of these.
pub find_dji_device_lem : (ds : List Device) → Chosen ds none (find_dji_device (some ds))
unfolding find_dji_device
find_dji_device_lem ds = find_from_lem ds none

-- A bulk endpoint in the direction.
abbrev pub IsBulk : Direction → Endpoint → Type 0
IsBulk dir e = (e.bulk && same_direction e.direction dir) ≡ true

-- An interface without a bulk endpoint in one of the directions.
abbrev pub IsLacking : Interface → Type 0
IsLacking i = (has_bulk dir_in i.endpoints && has_bulk dir_out i.endpoints) ≡ false

find_bulk_endpoint-has_bulk :
    (dir : Direction) (es : List Endpoint)
    → has_bulk dir es ≡ true
    → (e : Endpoint) × (find_bulk_endpoint dir es ≡ some e) × IsBulk dir e
unfolding has_bulk find_bulk_endpoint
find_bulk_endpoint-has_bulk dir [] h = cc
find_bulk_endpoint-has_bulk dir (e ∷ es) h =
    elim (Bool-cases (e.bulk && same_direction e.direction dir)) [
      | inl this ↦ (e, ap (λ b. if b then some e else find_bulk_endpoint dir es) this, this)
      | inr other ↦
          let (x, found_it, is_bulk) =
            find_bulk_endpoint-has_bulk dir es (sym (ap (λ b. b || has_bulk dir es) other) ∙ h) in
          (x, ap (λ b. if b then some e else find_bulk_endpoint dir es) other ∙ found_it, is_bulk)
    ]

both : (a b : Bool) → (a && b) ≡ true → (a ≡ true) × (b ≡ true)
both true b h = (refl, h)
both false b h = cc

-- findProtocolInterface takes the first interface with bulk endpoints in both directions; start then
-- finds both of them, so that its branch for a missing endpoint is never taken. It returns null only
-- where no interface has both.
pub find_protocol_interface_lem :
    (is : List Interface)
    → ((find_protocol_interface is ≡ none) × All IsLacking is)
      ⊎ ((xs : List Interface) × (ys : List Interface) × (i : Interface) × (bulk_in : Endpoint)
          × (bulk_out : Endpoint) × (find_protocol_interface is ≡ some i)
          × (is ≡ xs ++ (i ∷ ys))
          × All IsLacking xs
          × (both_endpoints i.endpoints ≡ some (bulk_in, bulk_out))
          × IsBulk dir_in bulk_in
          × IsBulk dir_out bulk_out)
unfolding find_protocol_interface both_endpoints
find_protocol_interface_lem [] = inl (refl, tt)
find_protocol_interface_lem (i ∷ is) =
    elim (Bool-cases (has_bulk dir_in i.endpoints && has_bulk dir_out i.endpoints)) [
      | inl this ↦
          let (has_in, has_out) =
            both (has_bulk dir_in i.endpoints) (has_bulk dir_out i.endpoints) this in
          let (a, find_a, bulk_a) = find_bulk_endpoint-has_bulk dir_in i.endpoints has_in in
          let (b, find_b, bulk_b) = find_bulk_endpoint-has_bulk dir_out i.endpoints has_out in
          inr (
            [],
            is,
            i,
            a,
            b,
            ap (λ t. if t then some i else find_protocol_interface is) this,
            refl,
            tt,
            rw (find_a, find_b, both_endpoints) refl,
            bulk_a,
            bulk_b,
          )
      | inr lacking ↦ elim (find_protocol_interface_lem is) [
        | inl nothing ↦ inl (
          ap (λ t. if t then some i else find_protocol_interface is) lacking ∙ nothing.0,
          (lacking, nothing.1),
        )
        | inr (xs, ys, j, a, b, e, at, before, ends, bulk_a, bulk_b) ↦ inr (
          i ∷ xs,
          ys,
          j,
          a,
          b,
          ap (λ t. if t then some i else find_protocol_interface is) lacking ∙ e,
          ap (λ l. i ∷ l) at,
          (lacking, before),
          ends,
          bulk_a,
          bulk_b,
        )
      ]
    ]
