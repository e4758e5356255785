-- ===== src/Examples/Names.antt =====
-- A storage with one registered name and one under offer.
use paseo_node.Base.{
  ℕ, ◌≡◌, refl, ◌↔◌, true, none, some, [], ◌∷◌, ◌++◌, Bytes, codes, length, is_empty, replicate,
  ◌==◌, list_eq, nat_eq, if◌then◌else◌,
}
use paseo_node.Runtime.Pns.{
  RegistrarInfo, Token, NameRecord, PnsTypes, Storage, default_hash, get_info, resolve_name, lookup,
  lookup_by_name,
}
use paseo_node.Runtime.Pns.Laws.{IsResolved, get_info_iff, resolve_name-eq-get_info, at}

-- A label is its name, and a node the label in front of its parent.
abbrev pub toy : PnsTypes
toy = record {
  Label = Bytes;
  RecordType = ℕ;
  new_with_len = λ name. if is_empty name then none else some (name, length name);
  encode_with_node = λ label node. label ++ node;
  parse_name_to_node = λ name node. if is_empty name then none else some (name ++ node);
  native_basenode = codes ".dot";
}

abbrev pub info : RegistrarInfo
info = record { expire = 5000; capacity = 10; register_fee = 7; last_block = 3 }

abbrev pub token : Token
token = record { owner = replicate 32 1 }

abbrev pub store : Storage toy
store = record {
  offered_names = λ id. if id == codes "gift.dot" then some (record { offered_at = 100 }) else none;
  registrar_info = λ id. some info;
  tokens = λ class id. some token;
  listings = λ id.
      if id == codes "sold.dot"
      then some (record { seller = replicate 32 1; price = 9; expires_at = 4000 })
      else none;
  records = λ id types. (1, id) ∷ [];
  now = 1000;
}

abbrev pub sold : NameRecord
sold = record {
  owner = replicate 32 1;
  expire = 5000;
  capacity = 10;
  register_fee = 7;
  for_sale = true;
  last_block = 3;
  read_block_number = 0;
  read_block_hash = default_hash;
}

sold_resolves : resolve_name toy store (codes "sold") ≡ some sold
unfolding resolve_name
sold_resolves = refl

gift_is_hidden : resolve_name toy store (codes "gift") ≡ none
unfolding resolve_name
gift_is_hidden = refl

expired_is_hidden : resolve_name toy (at toy store 5000) (codes "sold") ≡ none
unfolding resolve_name
expired_is_hidden = refl

unparsed_name : lookup_by_name toy store [] (1 ∷ []) ≡ lookup toy store default_hash (1 ∷ [])
unfolding lookup lookup_by_name
unparsed_name = refl

get_info_iff_example :
    (get_info toy store (codes "sold.dot") ≡ some sold)
    ↔ IsResolved toy store (codes "sold.dot") sold
get_info_iff_example = get_info_iff toy store (codes "sold.dot") sold

resolve_name-eq-get_info_example :
    resolve_name toy store (codes "sold") ≡ get_info toy store (codes "sold.dot")
resolve_name-eq-get_info_example = resolve_name-eq-get_info toy store (codes "sold")
