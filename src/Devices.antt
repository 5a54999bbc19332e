-- ===== src/Devices.antt =====
-- The devices that an event goes to: `_device_wants_event` and `_unique_devices_by_token` of
-- push_relay/app.py. A device is the dict of its document.
use mathlib.Core.List.{append-nil}
use mathlib.Core.Path.{ap₂}
use pbxpulse_agent.Prelude.{
  String, ◌≡◌, refl, ◌∙◌, ap, sym, Bool, true, false, not, ◌||◌, List, [], ◌∷◌, ◌++◌, ◌==◌, eq_iff,
  if◌then◌else◌, is_truthy, keep, map, All, Bool-cases, inl, inr,
}
use pbxpulse_agent.Prelude.Dict
use pbxpulse_agent.Prelude.Dict.{Dict}
use pbxpulse_agent.Prelude.Sets
use pbxpulse_agent.Prelude.Firsts.{firsts, firsts-step}
use pbxpulse_agent.Json
use pbxpulse_agent.Json.{Fields}

-- `device.get(key, True)`, as a condition
unfoldable pub is_enabled : Fields → String → Bool
is_enabled device key = if Json.has device key then Json.truthy (Json.get device key) else true

-- `_device_wants_event`
unfoldable pub device_wants_event : Fields → String → String → Bool
unfolding is_enabled
device_wants_event device category importance =
    if not (is_enabled device "meaningfulEnabled")
    then false
    else if category == "activity"
    then is_enabled device "activityEnabled"
    else importance == "attention" || importance == "important"

-- `str(device.get("fcmToken", ""))`
unfoldable pub fcm_token : Fields → String
fcm_token device = Json.text_or device "fcmToken" ""

unfoldable pub devices_by_token : Dict Fields → List Fields → Dict Fields
devices_by_token unique [] = unique
devices_by_token unique (device ∷ l) =
    devices_by_token
      (if is_truthy (fcm_token device) then Dict.put unique (fcm_token device) device else unique) l

-- `dict.values`
unfoldable pub values : Dict Fields → List Fields
values [] = []
values ((k, device) ∷ d) = device ∷ values d

-- `_unique_devices_by_token`
unfoldable pub unique_devices_by_token : List Fields → List Fields
unfolding devices_by_token values
unique_devices_by_token devices = values (devices_by_token [] devices)

abbrev keys_of : Dict Fields → List String
keys_of [] = []
keys_of ((k, device) ∷ d) = k ∷ keys_of d

-- Each device stands under its own token.
abbrev IsByToken : Dict Fields → Type 0
IsByToken = All (λ e. fcm_token e.1 ≡ e.0)

values-keys_of : (d : Dict Fields) → IsByToken d → map fcm_token (values d) ≡ keys_of d
unfolding values
values-keys_of [] h = refl
values-keys_of ((k, device) ∷ d) h = ap₂ ◌∷◌ h.0 (values-keys_of d h.1)

cons-if :
    (b : Bool) (j : String) (x y : List String)
    → j ∷ (if b then x else y) ≡ (if b then j ∷ x else j ∷ y)
cons-if true j x y = refl
cons-if false j x y = refl

put_device :
    (d : Dict Fields) (device : Fields)
    → IsByToken d
    → IsByToken (Dict.put d (fcm_token device) device)
      × (keys_of (Dict.put d (fcm_token device) device) ≡ (
          if Sets.member (fcm_token device) (keys_of d)
          then keys_of d
          else keys_of d ++ fcm_token device ∷ []))
unfolding Dict.put Sets.member
put_device [] device h = ((refl, tt), refl)
put_device ((j, other) ∷ d) device h =
    let (by_token, keys) = put_device d device h.1 in
    elim (Bool-cases (j == fcm_token device)) [
      | inl e ↦ rw (e) ((sym ((eq_iff j (fcm_token device)).0 e), h.1), refl)
      | inr e ↦ rw (e) (
        (h.0, by_token),
        ap (◌∷◌ j) keys ∙ cons-if (Sets.member (fcm_token device) (keys_of d)) j _ _,
      )
    ]

devices_by_token-firsts :
    (d : Dict Fields) (l : List Fields)
    → IsByToken d
    → IsByToken (devices_by_token d l)
      × (keys_of (devices_by_token d l)
          ≡ keys_of d ++ firsts (keys_of d) (keep is_truthy (map fcm_token l)))
unfolding devices_by_token firsts
devices_by_token-firsts d [] h = (h, sym (append-nil (keys_of d)))
devices_by_token-firsts d (device ∷ l) h =
    let (by_token, keys) = put_device d device h in
    elim (Bool-cases (is_truthy (fcm_token device))) [
      | inr e ↦ rw (e) (devices_by_token-firsts d l h)
      | inl e ↦
          let (all, rest) =
            devices_by_token-firsts (Dict.put d (fcm_token device) device) l by_token in
          rw (e) (
            all,
            rest
                ∙ firsts-step (keys_of d) _ (fcm_token device) (keep is_truthy (map fcm_token l))
                    keys,
          )
    ]

-- A message goes to each token once: the tokens of the devices that are kept are those of all the
-- devices, without the empty one, each once and in the order of their first places.
pub unique_devices_by_token-firsts :
    (devices : List Fields)
    → map fcm_token (unique_devices_by_token devices)
      ≡ firsts [] (keep is_truthy (map fcm_token devices))
unfolding unique_devices_by_token
unique_devices_by_token-firsts devices =
    let (by_token, keys) = devices_by_token-firsts [] devices tt in
    values-keys_of (devices_by_token [] devices) by_token ∙ keys
