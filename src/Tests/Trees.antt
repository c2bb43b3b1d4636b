-- ===== src/Tests/Trees.antt =====
-- A concrete prefix tree: a list of nodes, the newest first, that is walked by the lengths of the
-- prefixes.
use lixy.Base.{
  ℕ, ◌≡◌, refl, ◌≤◌, ◌-◌, ◌==◌, leb, ltb, ◌&&◌, if◌then◌else◌, Bool, true, false, Option, none,
  List, [], ◌∷◌, arith, All, All-map, Bool-cases, inl, inr,
}
use lixy.Platform.Patricia.{
  Patricia, LawfulPatricia, Key, key_eq, key_eq_iff, key, longest, covers, contains, IsPreorder,
}
use lixy.Net.{Prefix}
use lixy.Map.Receive.{zero_prefix}

pub record Node : Type 0 where
  pub prefix : Prefix
  pub content : Option ℕ

abbrev pub has : List Node → Key → Bool
has [] k = false
has (n ∷ ns) k = if key_eq k (key n.prefix) then true else has ns k

abbrev pub content_of : List Node → Key → Option ℕ
content_of [] k = none
content_of (n ∷ ns) k = if key_eq k (key n.prefix) then n.content else content_of ns k

abbrev pub prefix_of : List Node → Key → Prefix
prefix_of [] k = zero_prefix
prefix_of (n ∷ ns) k = if key_eq k (key n.prefix) then n.prefix else prefix_of ns k

abbrev pub without_key : List Node → Key → List Node
without_key [] k = []
without_key (n ∷ ns) k =
    let rest = without_key ns k in if key_eq (key n.prefix) k then rest else n ∷ rest

abbrev pub fill : List Node → Key → Option ℕ → List Node
fill [] k d = []
fill (n ∷ ns) k d = (if key_eq (key n.prefix) k then record n { content = d } else n) ∷ fill ns k d

abbrev pub insert_key : Key → List Key → List Key
insert_key k [] = k ∷ []
insert_key k (j ∷ js) =
    let later = insert_key k js in
    if key_eq k j then j ∷ js else (if ltb k.len j.len then k ∷ j ∷ js else j ∷ later)

abbrev pub keys : List Node → List Key
keys [] = []
keys (n ∷ ns) = insert_key (key n.prefix) (keys ns)

abbrev pub list_tree : Patricia
list_tree = record {
  Tree = List Node;
  new_patricia = [];
  has_node = has;
  node_data = content_of;
  patricia_lookup = λ r p. if has r (key p) then r else record { prefix = p; content = none } ∷ r;
  patricia_search_best = λ r p. longest (has r) p p.bitlen;
  patricia_remove = without_key;
  set_data = fill;
  node_prefix = prefix_of;
  walk = keys;
}

content_of-none : (r : List Node) (k : Key) → has r k ≡ false → content_of r k ≡ none
content_of-none [] k h = refl
content_of-none (n ∷ ns) k h = ground (arith, content_of-none ns k)

has-without_key :
    (r : List Node) (j k : Key) → has (without_key r j) k ≡ (if key_eq k j then false else has r k)
has-without_key [] j k = ground arith
has-without_key (n ∷ ns) j k = ground (
  arith,
  has-without_key ns j k,
  key_eq_iff k (key n.prefix),
  key_eq_iff (key n.prefix) j,
  key_eq_iff k j,
)

content_of-without_key :
    (r : List Node) (j k : Key)
    → content_of (without_key r j) k ≡ (if key_eq k j then none else content_of r k)
content_of-without_key [] j k = ground arith
content_of-without_key (n ∷ ns) j k = ground (
  arith,
  content_of-without_key ns j k,
  key_eq_iff k (key n.prefix),
  key_eq_iff (key n.prefix) j,
  key_eq_iff k j,
)

has-fill : (r : List Node) (j : Key) (d : Option ℕ) (k : Key) → has (fill r j d) k ≡ has r k
has-fill [] j d k = refl
has-fill (n ∷ ns) j d k = ground (arith, has-fill ns j d k)

content_of-fill :
    (r : List Node) (j : Key) (d : Option ℕ) (k : Key)
    → content_of (fill r j d) k ≡ (if key_eq k j && has r k then d else content_of r k)
content_of-fill [] j d k = ground arith
content_of-fill (n ∷ ns) j d k = ground (
  arith,
  content_of-fill ns j d k,
  key_eq_iff k (key n.prefix),
  key_eq_iff (key n.prefix) j,
  key_eq_iff k j,
)

key-prefix_of : (r : List Node) (k : Key) → has r k ≡ true → key (prefix_of r k) ≡ k
key-prefix_of [] k h = cc
key-prefix_of (n ∷ ns) k h = ground (arith, key-prefix_of ns k, key_eq_iff k (key n.prefix))

prefix_of-without_key :
    (r : List Node) (j k : Key) → key_eq k j ≡ false → prefix_of (without_key r j) k ≡ prefix_of r k
prefix_of-without_key [] j k h = refl
prefix_of-without_key (n ∷ ns) j k h = ground (
  arith,
  prefix_of-without_key ns j k h,
  key_eq_iff k (key n.prefix),
  key_eq_iff (key n.prefix) j,
  key_eq_iff k j,
)

contains-insert_key :
    (k : Key) (js : List Key) (l : Key)
    → contains (insert_key k js) l ≡ (if key_eq l k then true else contains js l)
contains-insert_key k [] l = refl
contains-insert_key k (j ∷ js) l =
    ground (arith, contains-insert_key k js l, key_eq_iff k j, key_eq_iff l k, key_eq_iff l j)

contains-keys : (r : List Node) (k : Key) → contains (keys r) k ≡ has r k
contains-keys [] k = refl
contains-keys (n ∷ ns) k =
    ground (arith, contains-insert_key (key n.prefix) (keys ns) k, contains-keys ns k)

-- No shorter key comes later, and none twice.
abbrev After : Key → Key → Type 0
After j k = (j.len ≤ k.len) × (key_eq k j ≡ false)

abbrev IsSorted : List Key → Type 0
IsSorted [] = Unit
IsSorted (j ∷ js) = All (After j) js × IsSorted js

insert_key-All :
    (P : Key → Type 0) (k : Key) (js : List Key) → P k → All P js → All P (insert_key k js)
insert_key-All P k [] p h = (p, tt)
insert_key-All P k (j ∷ js) p h = ground (arith, insert_key-All P k js p h.1)

insert_key-IsSorted : (k : Key) (js : List Key) → IsSorted js → IsSorted (insert_key k js)
insert_key-IsSorted k [] h = (tt, tt)
insert_key-IsSorted k (j ∷ js) h = elim (Bool-cases (key_eq k j)) [
  | inl same ↦ rw same h
  | inr other ↦ elim (Bool-cases (ltb k.len j.len)) [
    | inl shorter ↦
        rw (other, shorter)
          (
            (
              (ground arith, ground (arith, key_eq_iff j k, key_eq_iff k j)),
              All-map (After j) (After k)
                  (λ m a. (ground (arith, a.0), ground (arith, a.0, key_eq_iff m k))) js h.0,
            ),
            h,
          )
    | inr longer ↦
        rw (other, longer)
          (insert_key-All (After j) k js (ground arith, other) h.0, insert_key-IsSorted k js h.1)
  ]
]

keys-IsSorted : (r : List Node) → IsSorted (keys r)
keys-IsSorted [] = tt
keys-IsSorted (n ∷ ns) = insert_key-IsSorted (key n.prefix) (keys ns) (keys-IsSorted ns)

not-covers : (j k : Key) → After j k → covers k j ≡ false
unfolding covers key_eq
not-covers j k a = elim (Bool-cases (leb k.len j.len)) [
  | inr longer ↦ rw longer refl
  | inl shorter ↦
      let level : j.len - k.len ≡ 0 = ground (arith, a.0) in
      let same : k.len ≡ j.len = ground (arith, a.0) in
      let other : (k.bits == j.bits) ≡ false = ground (arith, a.1) in
      rw (shorter, level) (ground (arith, other))
]

IsSorted-IsPreorder : (js : List Key) → IsSorted js → IsPreorder js
IsSorted-IsPreorder [] h = tt
IsSorted-IsPreorder (j ∷ js) h =
    (All-map (After j) (λ k. covers k j ≡ false) (not-covers j) js h.0, IsSorted-IsPreorder js h.1)

pub list_tree_lawful : LawfulPatricia list_tree
list_tree_lawful = record {
  has-new = λ k. refl;
  data_of_none = content_of-none;
  has-lookup = λ r p k. ground (arith, key_eq_iff k (key p));
  data-lookup = λ r p k. ground (arith, key_eq_iff k (key p), content_of-none r k);
  search_best_longest = λ r p. refl;
  has-remove = has-without_key;
  data-remove = content_of-without_key;
  has-set_data = has-fill;
  data-set_data = λ r j d k h. ground (arith, content_of-fill r j d k, key_eq_iff k j);
  key-node_prefix = key-prefix_of;
  node_prefix-remove = prefix_of-without_key;
  contains-walk = contains-keys;
  walk-IsPreorder = λ r. IsSorted-IsPreorder (keys r) (keys-IsSorted r);
}
