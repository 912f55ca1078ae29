-- ===== src/Client/Operations/Gate.antt =====
-- bluez-async-ots/src/lib.rs, `impl_fns!`: its tests of features and of the list control point, and
-- how its functions end.
use bluetooth_ots_rs.Base.{
  ℕ, ◌≡◌, refl, arith, false, Option, none, some, List, ◌==◌, ◌∙◌, bit_and, inl, inr, Bool-cases,
}
use bluetooth_ots_rs.Base.Outcome.{Outcome, map_err, ok, err, Returns}
use bluetooth_ots_rs.Client.Host.{Host}
use bluetooth_ots_rs.Base.Monad.{after-Returns}
use bluetooth_ots_rs.Client.Objects.{previous, next, go_to}
use bluetooth_ots_rs.Client.Operations.{
  action_request, list_request, operation, action_operation, list_operation, create, delete,
  check_sum, execute, do_read, do_write, abort, first, last, order, number_of, clear_mark,
  list_none, require, expect, list_characteristic, list_feature_go_to,
}
use bluetooth_ots_rs.Client.State.{core, from_core, not_supported, OtsClient, Client, request}
use bluetooth_ots_rs.Client.State.Notify.{request-Returns}
use bluetooth_ots_rs.Core.Codes.{SortOrder}
use bluetooth_ots_rs.Core.Requests.{ListReq, ActionReq, encode_list, encode_action}
use bluetooth_ots_rs.Core.Responses.{ListRes, ActionRes, decode_list, decode_action}
use bluetooth_ots_rs.Core.Responses.Total.{decode-Returns}
use bluetooth_ots_rs.Crates.{Bitflags, UuidCrate}

map_err-Returns :
    {E F A : Type 0} (from : E → F) (r : Outcome E A) → Returns r → Returns (map_err from r)
map_err-Returns from (ok a) k = tt
map_err-Returns from (err e) k = tt
map_err-Returns from Outcome.panic k = k
map_err-Returns from Outcome.undefined k = k

module _ (b : Bitflags) (u : UuidCrate) (h : Host u.Uuid) (c : OtsClient h) (w : h.World) where
  -- Ends in `NotSupported`, and has done nothing outside the program.
  abbrev pub IsRefused : {A : Type 0} → Client h A → Type 0
  IsRefused action = action w ≡ (err not_supported, w)

  list_operation-IsRefused :
      {A : Type 0} (feature : Option ℕ) (req : ListReq) (wanted : ListRes → Option A)
      → c.olcp_chr ≡ none
      → IsRefused (list_operation b u h c feature req wanted)
  unfolding list_operation operation list_request
  list_operation-IsRefused none req wanted e = rw e refl
  list_operation-IsRefused (some feature) req wanted e =
      rw e (elim (Bool-cases (b.contains c.list_features feature)) [
        | inl p ↦ rw p refl
        | inr p ↦ rw p refl
      ])

  action_operation-IsRefused :
      {A : Type 0} (feature : ℕ) (req : ActionReq u.Uuid) (wanted : ActionRes → Option A)
      → b.contains c.action_features feature ≡ false
      → IsRefused (action_operation b u h c feature req wanted)
  unfolding action_operation operation
  action_operation-IsRefused feature req wanted e = rw e refl

  -- A client of a server without the list control point refuses each operation on the list of
  -- objects, and has sent nothing, also where no feature is tested.
  pub list_operations-IsRefused :
      (id : ℕ) (sort : SortOrder)
      → c.olcp_chr ≡ none
      → IsRefused (first b u h c)
        × IsRefused (last b u h c)
        × IsRefused (previous b u h c)
        × IsRefused (next b u h c)
        × IsRefused (go_to b u h c id)
        × IsRefused (order b u h c sort)
        × IsRefused (number_of b u h c)
        × IsRefused (clear_mark b u h c)
  unfolding previous next go_to
  list_operations-IsRefused id sort e = (
    list_operation-IsRefused none ListReq.first list_none e,
    list_operation-IsRefused none ListReq.last list_none e,
    rw (list_operation-IsRefused none ListReq.previous list_none e) refl,
    rw (list_operation-IsRefused none ListReq.next list_none e) refl,
    rw (list_operation-IsRefused (some list_feature_go_to) (ListReq.go_to id) list_none e) refl,
    list_operation-IsRefused _ _ _ e,
    list_operation-IsRefused _ _ _ e,
    list_operation-IsRefused _ _ _ e,
  )

  -- A client of a server without any action feature refuses each action, and has sent nothing.
  pub action_operations-IsRefused :
      (size offset length mode : ℕ) (type_ : u.Uuid) (param : List ℕ)
      → c.action_features ≡ 0
      → IsRefused (create b u h c size type_)
        × IsRefused (delete b u h c)
        × IsRefused (check_sum b u h c offset length)
        × IsRefused (execute b u h c param)
        × IsRefused (do_read b u h c offset length)
        × IsRefused (do_write b u h c offset length mode)
        × IsRefused (abort b u h c)
  action_operations-IsRefused size offset length mode type_ param e = (
    action_operation-IsRefused _ _ _ (lacks 0x01 refl),
    action_operation-IsRefused _ _ _ (lacks 0x02 refl),
    action_operation-IsRefused _ _ _ (lacks 0x04 refl),
    action_operation-IsRefused _ _ _ (lacks 0x08 refl),
    action_operation-IsRefused _ _ _ (lacks 0x10 refl),
    action_operation-IsRefused _ _ _ (lacks 0x20 refl),
    action_operation-IsRefused _ _ _ (lacks 0x200 refl),
  )
    where
      lacks :
          (feature : ℕ)
          → (bit_and 0 feature == feature) ≡ false
          → b.contains c.action_features feature ≡ false
      lacks feature p = rw e (b.contains_lem 0 feature ∙ p)

module _ (b : Bitflags) (u : UuidCrate) (h : Host u.Uuid) (c : OtsClient h) where
  require-Returns :
      (features : ℕ) (feature : Option ℕ) (w : h.World)
      → Returns (require b u h features feature w).0
  unfolding require
  require-Returns features feature w = ground arith

  expect-Returns :
      {Res A : Type 0} (wanted : Res → Option A) (res : Res) (w : h.World)
      → Returns (expect b u h wanted res w).0
  unfolding expect
  expect-Returns wanted res w = ground arith

  operation-Returns :
      {Res A : Type 0} (features : ℕ) (feature : Option ℕ) (exchange : Client h Res)
      (wanted : Res → Option A)
      → ((w : h.World) → Returns (exchange w).0)
      → (w : h.World) → Returns (operation b u h features feature exchange wanted w).0
  unfolding operation
  operation-Returns features feature exchange wanted k w =
      after-Returns (require b u h features feature w) _ (require-Returns features feature w)
        λ _ w _.
          after-Returns (exchange w) (expect b u h wanted) (k w)
            λ res w _. expect-Returns wanted res w

  action_request-Returns :
      (req : ActionReq u.Uuid) (w : h.World) → Returns (action_request b u h c req w).0
  unfolding action_request
  action_request-Returns req w =
      after-Returns (request h c c.oacp_chr (encode_action u.as_ref req) w)
        (λ res. from_core h (decode_action res))
        (request-Returns h c c.oacp_chr (encode_action u.as_ref req) w)
        λ res w _. map_err-Returns core (decode_action res) (decode-Returns res).1

  list_request-Returns : (req : ListReq) (w : h.World) → Returns (list_request b u h c req w).0
  unfolding list_request list_characteristic
  list_request-Returns req w =
      after-Returns (list_characteristic b u h c w) _ (ground arith) λ chr w _.
        after-Returns (request h c chr (encode_list req) w) (λ res. from_core h (decode_list res))
          (request-Returns h c chr (encode_list req) w)
          λ res w _. map_err-Returns core (decode_list res) (decode-Returns res).0

  -- Whatever the server answers, an operation of the client returns a value or an error: it does
  -- not panic and has no undefined behaviour.
  pub operations-Return :
      {A B : Type 0} (feature : ℕ) (action : ActionReq u.Uuid)
      (action_wanted : ActionRes → Option A) (list_feature : Option ℕ) (list : ListReq)
      (list_wanted : ListRes → Option B) (w : h.World)
      → Returns (action_operation b u h c feature action action_wanted w).0
        × Returns (list_operation b u h c list_feature list list_wanted w).0
  unfolding action_operation list_operation
  operations-Return feature action action_wanted list_feature list list_wanted w = (
    operation-Returns c.action_features (some feature) (action_request b u h c action) action_wanted
        (action_request-Returns action) w,
    operation-Returns c.list_features list_feature (list_request b u h c list) list_wanted
        (list_request-Returns list) w,
  )
