-- ===== src/GatherExamples.antt =====
-- The fragments of two objects come in turn, and one of them twice.
use tssdgo.Prelude.{
  ℕ, ◌+◌, ◌≡◌, refl, inl, inr, zero, suc, Option, none, some, List, [], ◌∷◌, All, arith, ◌==◌,
  get_elem?, length,
}
use mathlib.Core.Path.{subst}
use tssdgo.Wire.{ok, no_header}
use tssdgo.Fragment.{Fragment, raw_data}
use tssdgo.Buffer.{Buffer, new_buffer, lookup_entry}
use tssdgo.Buffer.Read.Stream.{Holds, flat}
use tssdgo.Buffer.Assemble.{wanted, is_ending}
use tssdgo.Buffer.Assemble.Gather.{push_all, Among, IsPiece, IsObject}
use tssdgo.Buffer.Assemble.Complete.{push_all-Holds}
use tssdgo.TypeInfo.{str, text}
use tssdgo.TypeInfo.Typed.{is_str}
use tssdgo.TypeInfo.Encode.{encode}
use tssdgo.TypeInfo.Fits.{Fits}
use tssdgo.TypeInfo.Dump.{zero_value}
use tssdgo.TypeInfo.Marshal.{unmarshal_to}
use tssdgo.Receiver.{new_rbuffer}
use tssdgo.Receiver.Route.{or_new}
use tssdgo.Receiver.Route.Filed.{object_at}
use tssdgo.Receiver.Route.Interleaved.{
  push_fragments, own, push_fragments-own, push_fragments-unmarshal_to,
}

abbrev no_format : ℕ → List ℕ
no_format t = []

abbrev no_parse : List ℕ → Option ℕ
no_parse s = none

abbrev fragment_of : List ℕ → ℕ → List ℕ → Fragment
fragment_of tid fid payload = record {
  header = no_header;
  schema = record { fid = fid; types = b'a' ∷ []; tid = tid; info = [] };
  heads = 1 ∷ 2 ∷ [];
  payload = payload;
  spare = [];
  data_len = 3;
  checksum = [];
}

-- The string "A", cut behind four bytes; the id of the second fragment is -2.
abbrev front : Fragment
front = fragment_of (b'x' ∷ []) 1 (22 ∷ 1 ∷ 0 ∷ 0 ∷ [])

abbrev back : Fragment
back = fragment_of (b'x' ∷ []) 0xFFFE (0 ∷ 65 ∷ [])

abbrev stranger : Fragment
stranger = fragment_of (b'y' ∷ []) 1 (7 ∷ [])

abbrev both : List Fragment
both = front ∷ back ∷ []

abbrev arrivals : List Fragment
arrivals = back ∷ back ∷ front ∷ []

abbrev mixed : List Fragment
mixed = back ∷ stranger ∷ back ∷ front ∷ []

abbrev one_type : List (List ℕ × (List ℕ × List ℕ))
one_type = (b'a' ∷ [], (b'F' ∷ [], b'1' ∷ [])) ∷ []

front-IsPiece : IsPiece (b'a' ∷ []) (b'x' ∷ []) 0 front
unfolding raw_data
front-IsPiece = record { same_types = refl; same_tid = refl; filled = λ e. omega arith; id = refl }

back-IsPiece : IsPiece (b'a' ∷ []) (b'x' ∷ []) 1 back
unfolding raw_data
back-IsPiece = record { same_types = refl; same_tid = refl; filled = λ e. omega arith; id = refl }

both_pieces :
    (i : ℕ) (f : Fragment) → get_elem? both i ≡ some f → IsPiece (b'a' ∷ []) (b'x' ∷ []) i f
both_pieces zero f e = subst (IsPiece (b'a' ∷ []) (b'x' ∷ []) 0) (cc) front-IsPiece
both_pieces (suc zero) f e = subst (IsPiece (b'a' ∷ []) (b'x' ∷ []) 1) (cc) back-IsPiece
both_pieces (suc (suc i)) f e = absurd (cc)

both_ending :
    (i : ℕ) (f : Fragment) → get_elem? both i ≡ some f → is_ending f ≡ (i + 1 == length both)
both_ending zero f e =
    let same : front ≡ f = cc in subst (λ g. is_ending g ≡ (0 + 1 == length both)) same refl
both_ending (suc zero) f e =
    let same : back ≡ f = cc in subst (λ g. is_ending g ≡ (1 + 1 == length both)) same refl
both_ending (suc (suc i)) f e = absurd (cc)

both-IsObject : IsObject (b'a' ∷ []) (b'x' ∷ []) both
both-IsObject = record {
  pieces = both_pieces;
  ending = both_ending;
  occupied = (omega arith, tt);
  some_piece = omega arith;
}

arrivals_known : All (λ f. Among f both) arrivals
arrivals_known = (inr (inl refl), (inr (inl refl), (inl refl, tt)))

arrivals_all : (f : Fragment) → Among f both → Among f arrivals
arrivals_all f (inl e) = inr (inr (inl e))
arrivals_all f (inr (inl e)) = inl e
arrivals_all f (inr (inr m)) = absurd m

push_all-Holds_example :
    (((f : Fragment) → Among f both → Among f arrivals)
      → wanted (push_all arrivals (new_buffer 0)) ≡ 0)
    × (wanted (push_all arrivals (new_buffer 0)) ≡ 0
        → ((j : ℕ) → lookup_entry (push_all arrivals (new_buffer 0)).fragments j ≡ get_elem? both j)
          × Holds (push_all arrivals (new_buffer 0)) (flat both))
push_all-Holds_example =
    push_all-Holds (b'a' ∷ []) (b'x' ∷ []) both arrivals 0 both-IsObject arrivals_known

push_fragments-own_example :
    or_new
      (object_at (b'F' ∷ []) (b'1' ∷ []) (b'x' ∷ []) (push_fragments one_type mixed new_rbuffer))
    ≡ push_all
        (own one_type (b'F' ∷ []) (b'1' ∷ []) (b'x' ∷ []) mixed)
        (or_new (object_at (b'F' ∷ []) (b'1' ∷ []) (b'x' ∷ []) new_rbuffer))
push_fragments-own_example =
    push_fragments-own one_type (b'F' ∷ []) (b'1' ∷ []) (b'x' ∷ []) mixed new_rbuffer

text-Fits : Fits no_format no_parse str (text (65 ∷ []))
unfolding Fits
text-Fits = omega arith

both_bytes : flat both ≡ encode no_format str (text (65 ∷ []))
unfolding encode
both_bytes = refl

push_fragments-unmarshal_to_example :
    (wanted (
        or_new (
          object_at
            (b'F' ∷ [])
            (b'1' ∷ [])
            (b'x' ∷ [])
            (push_fragments one_type mixed new_rbuffer)))
      ≡ 0)
    × ((b' : Buffer) × (unmarshal_to no_parse str
            (or_new (
              object_at
                (b'F' ∷ [])
                (b'1' ∷ [])
                (b'x' ∷ [])
                (push_fragments one_type mixed new_rbuffer)))
            (zero_value str)
          ≡ ok (text (65 ∷ []), b'))
        × (b'.size ≡ 0))
push_fragments-unmarshal_to_example =
    push_fragments-unmarshal_to one_type no_format no_parse str (text (65 ∷ [])) (b'a' ∷ [])
      (b'x' ∷ []) (b'F' ∷ []) (b'1' ∷ []) both mixed both-IsObject arrivals_known arrivals_all
      both_bytes is_str text-Fits
