-- ===== src/Cli/Select/Chosen/Steps.antt =====
-- cli/src/main.rs, the loops of `ObjSel::select`, in front of a server of the list control point.
use mathlib.Core.Option.{some-injective}
use bluetooth_ots_rs.Base.{
  ℕ, zero, suc, ◌+◌, ◌<◌, ◌≤◌, ◌≡◌, refl, sym, ap, ◌∙◌, arith, true, false, some, List, [], ◌∷◌,
  length, drop, get_elem?, All, lt→ltb, le→ltb, ◌⊎◌, inl, inr, subst, Bool-cases,
}
use bluetooth_ots_rs.Base.Outcome.{Outcome, ok, err}
use bluetooth_ots_rs.Cli.Command.{failed, no_object, same_bytes}
use bluetooth_ots_rs.Cli.Select.{forward, search}
use bluetooth_ots_rs.Cli.Select.Chosen.{along, name_place}
use bluetooth_ots_rs.Client.Host.{Host}
use bluetooth_ots_rs.Client.Objects.{name, next}
use bluetooth_ots_rs.Client.Served.{Object, Server, Serves, serve, move}
use bluetooth_ots_rs.Client.Served.Exchange.{exchanged-view}
use bluetooth_ots_rs.Client.Served.Moves.{Move, behind, next-serve}
use bluetooth_ots_rs.Client.State.{OtsClient}
use bluetooth_ots_rs.Client.Objects.Select.{selection}
use bluetooth_ots_rs.Core.Codes.{ListRc}
use bluetooth_ots_rs.Core.Requests.{ListReq}
use bluetooth_ots_rs.Core.Utf8.{from_utf8}
use bluetooth_ots_rs.Crates.{Bitflags, UuidCrate}

pub lt-cases : (a b : ℕ) → (a < b) ⊎ (b ≤ a)
lt-cases a b = omega arith

module _ {ℓ} {A : Type ℓ} where
  pub drop-get_elem? :
      (k : ℕ) (xs : List A)
      → k < length xs
      → (x : A) × (get_elem? xs k ≡ some x) × (drop k xs ≡ x ∷ drop (suc k) xs)
  drop-get_elem? zero [] lt = absurd (omega arith)
  drop-get_elem? zero (x ∷ xs) lt = (x, refl, refl)
  drop-get_elem? (suc k) [] lt = absurd (omega arith)
  drop-get_elem? (suc k) (x ∷ xs) lt = drop-get_elem? k xs (omega arith)

  pub All-get_elem? {κ} :
      (P : A → Type κ) (k : ℕ) (xs : List A) {x : A} → All P xs → get_elem? xs k ≡ some x → P x
  All-get_elem? P k [] h e = cc
  All-get_elem? P zero (x ∷ xs) (p, h) e = subst P (some-injective x _ e) p
  All-get_elem? P (suc k) (x ∷ xs) (p, h) e = All-get_elem? P k xs h e

-- An object whose name is a string.
abbrev pub IsNamed : Object → Type 0
IsNamed o = from_utf8 o.name ≡ ok o.name

abbrev pub server : List Object → ℕ → Server
server os k = record { objects = os; cursor = k }

module _ (b : Bitflags) (u : UuidCrate) (h : Host u.Uuid) (c : OtsClient h) (chr : h.CharId)
    (s : Serves h c chr) (has_list : c.olcp_chr ≡ some chr) where
  -- The result, and the server behind it.
  abbrev pub shown : {E A : Type 0} → Outcome E A × h.World → Outcome E A × Server
  shown (r, w) = (r, s.view w)

  abbrev pub stepped : h.World → h.World
  stepped w = behind b u h c chr s has_list Move.to_next w

  -- What the server does with a step forward.
  serve-next :
      (v : Server) (os : List Object) (k : ℕ)
      → v ≡ server os k
      → serve ListReq.next v ≡ move (server os k) (k + 1) ListRc.out_of_bounds
  serve-next v os k e = rw e refl

  pub next-inside :
      (os : List Object) (k : ℕ) (w : h.World)
      → s.view w ≡ server os k
      → suc k < length os
      → (next b u h c w ≡ (ok true, stepped w)) × (s.view (stepped w) ≡ server os (suc k))
  next-inside os k w v lt =
      let served : serve ListReq.next (s.view w) ≡ (ListRc.success, server os (k + 1)) =
        serve-next (s.view w) os k v ∙ rw (lt→ltb (k + 1) (length os) (omega arith)) refl in
      (
        next-serve b u h c chr s has_list w ∙ ap (λ r. (selection h false r.0, stepped w)) served,
        exchanged-view h c chr s ListReq.next w tt
            ∙ ap (λ r. r.1) served
            ∙ ap (server os) (omega arith),
      )

  pub next-last :
      (os : List Object) (k : ℕ) (w : h.World)
      → s.view w ≡ server os k
      → length os ≤ suc k
      → (next b u h c w ≡ (ok false, stepped w)) × (s.view (stepped w) ≡ server os k)
  next-last os k w v ge =
      let served : serve ListReq.next (s.view w) ≡ (ListRc.out_of_bounds, server os k) =
        serve-next (s.view w) os k v ∙ rw (le→ltb (k + 1) (length os) (omega arith)) refl in
      (
        next-serve b u h c chr s has_list w ∙ ap (λ r. (selection h false r.0, stepped w)) served,
        exchanged-view h c chr s ListReq.next w tt ∙ ap (λ r. r.1) served,
      )

  reached :
      (os : List Object) (k place : ℕ)
      → k < length os
      → place ≡ k
      → (ok tt, server os k) ≡ along h place (server os k)
  reached os k place lt e =
      rw (lt→ltb place (length os) (omega arith)) (ap (λ n. (ok tt, server os n)) (sym e))

  missed :
      (os : List Object) (k place : ℕ)
      → k < length os
      → length os ≤ suc k
      → length os ≤ place
      → (err (failed no_object), server os k) ≡ along h place (server os k)
  missed os k place lt ge far =
      rw (le→ltb place (length os) far)
        (ap (λ n. (err (failed no_object), server os n)) (omega arith))

  -- Stepping forward from an object reaches the place that many steps ahead, if it is there.
  pub forward-along :
      (n : ℕ) (os : List Object) (k : ℕ) (w : h.World)
      → s.view w ≡ server os k
      → k < length os
      → shown (forward b u h c n w) ≡ along h (k + n) (server os k)
  unfolding forward
  forward-along zero os k w v lt = rw v (reached os k (k + 0) lt (omega arith))
  forward-along (suc n) os k w v lt = elim (lt-cases (suc k) (length os)) [
    | inl l ↦
        let (p, q) = next-inside os k w v l in
        rw p (
          forward-along n os (suc k) (stepped w) q l
          ∙ ap (λ place. along h place (server os k)) (omega arith))
    | inr g ↦
        let (p, q) = next-last os k w v g in rw (p, q) (missed os k (k + suc n) lt g (omega arith))
  ]

  -- The name of the current object.
  pub name-named :
      (o : Object) (os : List Object) (k : ℕ) (w : h.World)
      → s.view w ≡ server os k
      → get_elem? os k ≡ some o
      → IsNamed o
      → name b u h c w ≡ (ok o.name, s.after_name w)
  unfolding name
  name-named o os k w v e named =
      rw (s.names w o (ap (λ v. get_elem? v.objects v.cursor) v ∙ e), named) refl

  -- Searching from an object reaches the first one with the name at it or behind it, if there is
  -- one, and needs no more turns than objects are left.
  pub search-along :
      (turns : ℕ) (req_name : List ℕ) (os : List Object) (k : ℕ) (w : h.World)
      → s.view w ≡ server os k
      → All IsNamed os
      → k < length os
      → length os ≤ k + turns
      → shown (search b u h c turns req_name w)
        ≡ along h (k + name_place req_name (drop k os)) (server os k)
  unfolding search
  search-along zero req_name os k w v named lt enough = absurd (omega arith)
  search-along (suc turns) req_name os k w v named lt enough =
      let (o, at, split) = drop-get_elem? k os lt in
      rw (name-named o os k w v at (All-get_elem? IsNamed k os named at), split)
        (elim (Bool-cases (same_bytes o.name req_name)) [
          | inl same ↦ rw (same, s.name_view w, v) (reached os k (k + 0) lt (omega arith))
          | inr other ↦ rw other (elim (lt-cases (suc k) (length os)) [
            | inl l ↦
                let (p, q) = next-inside os k (s.after_name w) (s.name_view w ∙ v) l in
                rw p (
                  search-along turns req_name os (suc k) (stepped (s.after_name w)) q named l
                    (omega arith)
                  ∙ ap (λ place. along h place (server os k)) (omega arith))
            | inr g ↦
                let (p, q) = next-last os k (s.after_name w) (s.name_view w ∙ v) g in
                rw (p, q) (missed os k _ lt g (omega arith))
          ])
        ])
