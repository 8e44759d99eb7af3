-- ===== src/RouteExamples.antt =====
-- A fragment that is a whole object, filed and handed over.
use tssdgo.Prelude.{ℕ, ◌≡◌, refl, none, some, List, [], ◌∷◌}
use tssdgo.Wire.{no_header}
use tssdgo.Fragment.{Fragment, raw_data}
use tssdgo.Buffer.{Buffer}
use tssdgo.Buffer.Assemble.{wanted, wanted_loop, push, adopt}
use tssdgo.Receiver.{RBuffer, new_rbuffer}
use tssdgo.Receiver.Route.{push_fragment, take_buffer, delete_key}
use tssdgo.Receiver.Route.Filed.{IsSorted, new_rbuffer-IsSorted, push_fragment-IsSorted}
use tssdgo.Receiver.Route.Taken.{Takes, take_buffer-Takes, take_buffer-push_fragment}

abbrev one_type : List (List ℕ × (List ℕ × List ℕ))
one_type = (b'a' ∷ [], (b'F' ∷ [], b'1' ∷ [])) ∷ []

abbrev family_name : List ℕ
family_name = b'F' ∷ []

abbrev version_name : List ℕ
version_name = b'1' ∷ []

-- The ending fragment, number 1.
abbrev whole_fragment : Fragment
whole_fragment = record {
  header = no_header;
  schema = record { fid = 0xFFFF; types = b'a' ∷ []; tid = b'x' ∷ []; info = [] };
  heads = 1 ∷ 2 ∷ [];
  payload = 3 ∷ 4 ∷ 5 ∷ [];
  spare = 6 ∷ [];
  data_len = 6;
  checksum = 6 ∷ [];
}

abbrev filed : RBuffer
filed = (push_fragment one_type whole_fragment new_rbuffer).1

fragment_accepted : (push_fragment one_type whole_fragment new_rbuffer).0 ≡ none
unfolding push_fragment push wanted wanted_loop adopt delete_key new_rbuffer raw_data
fragment_accepted = refl

filed-IsSorted : IsSorted one_type filed
filed-IsSorted =
    push_fragment-IsSorted one_type whole_fragment new_rbuffer (new_rbuffer-IsSorted one_type)

push_fragment-IsSorted_example :
    IsSorted one_type (push_fragment one_type whole_fragment new_rbuffer).1
push_fragment-IsSorted_example =
    push_fragment-IsSorted one_type whole_fragment new_rbuffer (new_rbuffer-IsSorted one_type)

take_buffer-Takes_example :
    Takes family_name version_name filed (take_buffer family_name version_name filed)
take_buffer-Takes_example =
    take_buffer-Takes family_name version_name filed (filed-IsSorted.1 family_name version_name)

take_buffer-push_fragment_example :
    (whole : Buffer) × ((take_buffer family_name version_name filed).0 ≡ some whole)
    × (wanted whole ≡ 0)
take_buffer-push_fragment_example =
    take_buffer-push_fragment one_type whole_fragment new_rbuffer family_name version_name
      (new_rbuffer-IsSorted one_type) refl fragment_accepted
