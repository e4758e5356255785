-- ===== src/Examples/Servers.antt =====
-- Modules that are lists of method names.
use Prim.Native.String.{String}
use mathlib.Core.List.{Memᴰ}
use mathlib.Core.List.Memᴰ.{append_left, append_right, append_cases}
use text.Mathlib.TextEquality.{eq_iff}
use text.Mathlib.Text.{◌==◌ as str_eq}
use paseo_node.Base.{
  Option, none, some, sym, ◌∙◌, ◌≡◌, refl, Bool, true, false, ◌||◌, List, [], ◌∷◌, ◌++◌, Result, ok,
  err, inl, inr, Bool-cases, if◌then◌else◌, arith, All,
}
use mathlib.Core.Path.{subst}
use paseo_node.Node.PnsRpc.{Request}
use paseo_node.Node.Rpc.Namespace.{
  method_name, pns_methods, is_pns_name, IsOutside, IsPnsNames, create_full-method_name,
}
use paseo_node.Node.Rpc.{
  RpcTypes, FullDeps, create_full, AreDisjoint, IsMerging, all_servers, IsOf, Reaches,
}

abbrev member : String → List String → Bool
member s [] = false
member s (x ∷ xs) = str_eq s x || member s xs

abbrev overlap : List String → List String → Bool
overlap m [] = false
overlap m (x ∷ n) = member x m || overlap m n

mem-of_member : (s : String) (xs : List String) → member s xs ≡ true → Memᴰ s xs
mem-of_member s [] h = cc
mem-of_member s (x ∷ xs) h = elim (Bool-cases (str_eq s x)) [
  | inl same ↦ Memᴰ.head ((eq_iff _ _).0 same)
  | inr other ↦ Memᴰ.tail (mem-of_member s xs (ground arith))
]

member_of_mem : (s : String) (xs : List String) → Memᴰ s xs → member s xs ≡ true
member_of_mem s [] m = elim m [ ]
member_of_mem s (x ∷ xs) (Memᴰ.head e) = rw ((eq_iff s x).1 e) refl
member_of_mem s (x ∷ xs) (Memᴰ.tail m) = let h = member_of_mem s xs m in ground arith

common_of_overlap : (m n : List String) → overlap m n ≡ true → (s : String) × Memᴰ s m × Memᴰ s n
common_of_overlap m [] h = cc
common_of_overlap m (x ∷ n) h = elim (Bool-cases (member x m)) [
  | inl here ↦ (x, mem-of_member x m here, Memᴰ.head refl)
  | inr there ↦ let (s, a, b) = common_of_overlap m n (ground arith) in (s, a, Memᴰ.tail b)
]

overlap_of_common : (m n : List String) (s : String) → Memᴰ s m → Memᴰ s n → overlap m n ≡ true
overlap_of_common m [] s a b = elim b [ ]
overlap_of_common m (x ∷ n) s a (Memᴰ.head e) =
    let h : member s m ≡ true = member_of_mem s m a in rw (← e, h) refl
overlap_of_common m (x ∷ n) s a (Memᴰ.tail b) = let h = overlap_of_common m n s a b in ground arith

abbrev merge : List String → List String → Result (List String) (Unit {0})
merge m n = if overlap m n then err tt else ok (m ++ n)

-- A method's callback is its name.
abbrev handler : List String → String → Option String
handler m s = if member s m then some s else none

handled : (s : String) (m : List String) → Memᴰ s m → handler m s ≡ some s
handled s m h = rw (member_of_mem s m h) refl

-- `names` is the list of PNS's methods, and `pki` of ZK-PKI's.
abbrev servers : (names pki : List String) → RpcTypes
servers names pki = record {
  RpcModule = List String;
  MergeError = Unit {0};
  new = [];
  merge = merge;
  method_names = λ m. m;
  Callback = String;
  callback = handler;
  Client = Unit {0};
  Pool = Unit {0};
  system = λ client pool. "system_accountNextIndex" ∷ [];
  transaction_payment = λ client. "payment_queryInfo" ∷ [];
  pns = λ client. names;
  zk_pki = λ client. pki;
}

abbrev deps : (names pki : List String) → FullDeps (servers names pki)
deps names pki = record { client = tt; pool = tt }

servers-IsMerging : (names pki : List String) → IsMerging (servers names pki)
servers-IsMerging names pki = record {
  new-IsEmpty = λ s listed. elim listed [ ];
  merged = λ m n disjoint. elim (Bool-cases (overlap m n)) [
    | inl on ↦ let (s, a, b) = common_of_overlap m n on in absurd (disjoint s a b)
    | inr off ↦ (
      m ++ n,
      rw off refl,
      λ s. (append_cases m, λ d. elim d [ inl h ↦ append_left n h | inr h ↦ append_right m h ]),
      λ s h. handled s (m ++ n) (append_left n h) ∙ sym (handled s m h),
      λ s h. handled s (m ++ n) (append_right m h) ∙ sym (handled s n h),
    )
  ];
}

disjoint_of_overlap : (m n : List String) → overlap m n ≡ false → AreDisjoint m n
disjoint_of_overlap m n h s a b = let on = overlap_of_common m n s a b in cc

-- The names of the trait, in another order.
abbrev pns_names : List String
pns_names =
    "pns_lookupByName" ∷ "pns_getListing" ∷ "pns_lookup" ∷ "pns_resolveName" ∷ "pns_getInfo" ∷ []

mem_of_all_members :
    (xs ys : List String) → All (λ x. member x ys ≡ true) xs → (s : String) → Memᴰ s xs → Memᴰ s ys
mem_of_all_members [] ys all s m = elim m [ ]
mem_of_all_members (x ∷ xs) ys (here, rest) s (Memᴰ.head e) =
    mem-of_member s ys (subst (λ n. member n ys ≡ true) (sym e) here)
mem_of_all_members (x ∷ xs) ys (here, rest) s (Memᴰ.tail m) = mem_of_all_members xs ys rest s m

pns_names-IsPnsNames : IsPnsNames pns_names
pns_names-IsPnsNames s = (
  mem_of_all_members pns_names pns_methods (refl, (refl, (refl, (refl, (refl, tt))))) s,
  mem_of_all_members pns_methods pns_names (refl, (refl, (refl, (refl, (refl, tt))))) s,
)

abbrev named : RpcTypes
named = servers pns_names ("zkPki_certStatus" ∷ [])

one-IsOutside : (n : String) → is_pns_name n ≡ false → IsOutside (n ∷ [])
one-IsOutside n h s (Memᴰ.head e) = subst (λ x. is_pns_name x ≡ false) (sym e) h
one-IsOutside n h s (Memᴰ.tail m) = elim m [ ]

create_full-method_name_example :
    (m : List String) × (create_full named (deps _ _) ≡ ok m)
    × IsOf named (deps _ _) (servers-IsMerging _ _) m (all_servers named (deps _ _))
    × Reaches named (deps _ _) (servers-IsMerging _ _) m (all_servers named (deps _ _))
    × ((req : Request)
        → Memᴰ (method_name req) m
          × (handler m (method_name req) ≡ handler pns_names (method_name req)))
create_full-method_name_example =
    create_full-method_name named (deps _ _) (servers-IsMerging _ _) pns_names-IsPnsNames
      (one-IsOutside "system_accountNextIndex" refl) (one-IsOutside "payment_queryInfo" refl)
      (one-IsOutside "zkPki_certStatus" refl) (disjoint_of_overlap _ _ refl)
      (disjoint_of_overlap _ _ refl) (disjoint_of_overlap _ _ refl)
