-- ===== src/Receiver/Route/Interleaved.antt =====
-- Fragments of several objects, as they come: each object gets its own, in their order.
use tssdgo.Prelude.{
  ℕ, ◌≡◌, refl, sym, ap, ◌∙◌, Bool, true, false, ◌&&◌, Option-cases, Option, none, some, inl, inr,
  List, [], ◌∷◌, ◌++◌, All, if◌then◌else◌, append-nil,
}
use tssdgo.Fragment.{Fragment}
use tssdgo.Buffer.{Buffer, new_buffer}
use tssdgo.Buffer.Read.Stream.{Holds, flat}
use tssdgo.Buffer.Assemble.{same_text, push, wanted}
use tssdgo.Buffer.Assemble.Gather.{push_all, Among, IsObject}
use tssdgo.Buffer.Assemble.Complete.{push_all-Holds}
use tssdgo.Wire.{ok}
use tssdgo.TypeInfo.{TypeInfo, Value}
use tssdgo.TypeInfo.Typed.{Typed}
use tssdgo.TypeInfo.Encode.{encode}
use tssdgo.TypeInfo.Fits.{Fits}
use tssdgo.TypeInfo.Dump.{dump, zero_value}
use tssdgo.TypeInfo.RoundTrip.{dump-encode}
use tssdgo.TypeInfo.Marshal.{unmarshal_to}
use tssdgo.Registry.{lookup_key}
use tssdgo.Receiver.{RBuffer, new_rbuffer}
use tssdgo.Receiver.Route.{or_new, push_fragment}
use tssdgo.Receiver.Route.Filed.{object_at, place-cases, push_fragment-object_at}

module _ (index : List (List ℕ × (List ℕ × List ℕ))) where
  abbrev pub push_fragments : List Fragment → RBuffer → RBuffer
  push_fragments [] r = r
  push_fragments (f ∷ fs) r = push_fragments fs (push_fragment index f r).1

  module _ (u v t : List ℕ) where
    -- Whether a fragment is of the object with the family, the version and the id.
    abbrev pub is_at : List ℕ → Option (List ℕ × List ℕ) → Bool
    is_at tid none = false
    is_at tid (some (family, version)) =
        same_text family u && same_text version v && same_text tid t

    abbrev pub own : List Fragment → List Fragment
    own [] = []
    own (f ∷ fs) =
        if is_at f.schema.tid (lookup_key f.schema.types index) then f ∷ own fs else own fs

    abbrev pick : Fragment → RBuffer → Bool → Buffer
    pick f r c =
        if c then (push (some f) (or_new (object_at u v t r))).2 else or_new (object_at u v t r)

    unknown :
        (f : Fragment) (r : RBuffer)
        → lookup_key f.schema.types index ≡ none
        → object_at u v t (push_fragment index f r).1 ≡ object_at u v t r
    unfolding push_fragment
    unknown f r e = rw e refl

    branch :
        (f : Fragment) (fs : List Fragment) (b : Buffer) (c : Bool)
        → push_all fs (if c then (push (some f) b).2 else b) ≡ push_all (if c then f ∷ fs else fs) b
    branch f fs b true = refl
    branch f fs b false = refl

    one_at :
        (f : Fragment) (r : RBuffer)
        → or_new (object_at u v t (push_fragment index f r).1)
          ≡ pick f r (is_at f.schema.tid (lookup_key f.schema.types index))
    one_at f r = elim (Option-cases (lookup_key f.schema.types index)) [
      | inl e ↦ ap or_new (unknown f r e) ∙ sym (ap (λ o. pick f r (is_at f.schema.tid o)) e)
      | inr ((family, version), e) ↦
          let moved = (push_fragment-object_at index f r family version e).0 u v t in
          ap or_new moved
          ∙ (elim (place-cases family version f.schema.tid u v t) [
            | inl (y, eu, ev, et) ↦ rw (y, eu, ev, et) refl ∙ sym (ap (pick f r) y)
            | inr n ↦ rw n refl ∙ sym (ap (pick f r) n)
          ]
              ∙ sym (ap (λ o. pick f r (is_at f.schema.tid o)) e))
    ]

    -- What each object becomes does not depend on the fragments of the others in between.
    pub push_fragments-own :
        (fs : List Fragment) (r : RBuffer)
        → or_new (object_at u v t (push_fragments fs r))
          ≡ push_all (own fs) (or_new (object_at u v t r))
    push_fragments-own [] r = refl
    push_fragments-own (f ∷ fs) r =
        push_fragments-own fs (push_fragment index f r).1
        ∙ (ap (push_all (own fs)) (one_at f r)
            ∙ branch f (own fs) (or_new (object_at u v t r))
                (is_at f.schema.tid (lookup_key f.schema.types index)))

  -- All fragments of an object with the bytes of a typed value that the format can carry come, in any
  -- order, some more than once, and between them any fragments of other objects. Then nothing is missing of the object that is kept
  -- under its id, and reading it gives the value and leaves no byte.
  pub push_fragments-unmarshal_to :
      (format : ℕ → List ℕ) (parse : List ℕ → Option ℕ) (t : TypeInfo) (v : Value)
      (types tid family version : List ℕ) (gs fs : List Fragment)
      → IsObject types tid gs
      → All (λ f. Among f gs) (own family version tid fs)
      → ((f : Fragment) → Among f gs → Among f (own family version tid fs))
      → flat gs ≡ encode format t v
      → Typed t v
      → Fits format parse t v
      → (let b = or_new (object_at family version tid (push_fragments fs new_rbuffer)) in
          (wanted b ≡ 0)
          × ((b' : Buffer) × (unmarshal_to parse t b (zero_value t) ≡ ok (v, b')) × (b'.size ≡ 0)))
  unfolding unmarshal_to new_rbuffer
  push_fragments-unmarshal_to format parse t v types tid family version gs fs object members all
        bytes typed fits =
      let own_fs = own family version tid fs in
      let same = push_fragments-own family version tid fs new_rbuffer in
      let (complete, held) = push_all-Holds types tid gs own_fs 0 object members in
      let whole : wanted (push_all own_fs (new_buffer 0)) ≡ 0 = complete all in
      let front : Holds (push_all own_fs (new_buffer 0)) (encode format t v ++ []) =
        rw (bytes, sym (append-nil (encode format t v))) at (held whole).1 in
      let (b', e, rest) =
        dump-encode format parse t v (push_all own_fs (new_buffer 0)) [] typed fits front in
      (ap wanted same ∙ whole, (b', ap (λ b. dump parse t b (zero_value t)) same ∙ e, rest.counted))
