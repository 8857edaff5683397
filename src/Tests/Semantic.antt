-- ===== src/Tests/Semantic.antt =====
-- The comparisons of the tests: `DeepEqual` at each type.
use sesame_operator.Prelude.{
  ℕ, String, Bool, true, false, ◌&&◌, List, [], ◌∷◌, ◌++◌, Option, none, some, StringMap, ◌≡◌, refl,
  ap, ◌==◌, ==_refl, eq_iff, nat_eq, nat_eq_iff, and_true,
}
use sesame_operator.Api.{Condition}
use sesame_operator.Kube.{IntOrString, int_val, str_val, ServicePort, PolicyRule, Subject, RoleRef}
use sesame_operator.Kube.Pods.{Container, PodSpec}
use sesame_operator.Equality.{DeepEqual, Semantic}

module _ {A : Type 0} (test : A → A → Bool) (same : (a : A) → test a a ≡ true) where
  abbrev pub lists_equal : List A → List A → Bool
  lists_equal [] [] = true
  lists_equal (x ∷ xs) (y ∷ ys) = test x y && lists_equal xs ys
  lists_equal _ _ = false

  pub lists_equal_refl : (l : List A) → lists_equal l l ≡ true
  lists_equal_refl [] = refl
  lists_equal_refl (x ∷ xs) = rw (same x, lists_equal_refl xs)

  abbrev pub lists : DeepEqual (List A)
  lists = record { equal = lists_equal; equal_refl = lists_equal_refl }

abbrev container_images : List Container → List String
container_images [] = []
container_images (c ∷ cs) = c.image ∷ (c.args ++ container_images cs)

abbrev text : DeepEqual String
text = record { equal = ◌==◌; equal_refl = ==_refl }

pub nat_eq_refl : (n : ℕ) → nat_eq n n ≡ true
nat_eq_refl n = (nat_eq_iff n n).1 refl

abbrev number : DeepEqual ℕ
number = record { equal = nat_eq; equal_refl = nat_eq_refl }

abbrev target_equal : IntOrString → IntOrString → Bool
target_equal (int_val a) (int_val b) = nat_eq a b
target_equal (str_val a) (str_val b) = a == b
target_equal _ _ = false

pub target_equal_refl : (t : IntOrString) → target_equal t t ≡ true
target_equal_refl (int_val a) = nat_eq_refl a
target_equal_refl (str_val a) = ==_refl a

target_equal_sound : (t u : IntOrString) → target_equal t u ≡ true → t ≡ u
target_equal_sound (int_val a) (int_val b) h = ap int_val ((nat_eq_iff a b).0 h)
target_equal_sound (str_val a) (str_val b) h = ap str_val ((eq_iff a b).0 h)
target_equal_sound (int_val a) (str_val b) h = cc
target_equal_sound (str_val a) (int_val b) h = cc

abbrev port_equal : ServicePort → ServicePort → Bool
port_equal p q =
    (p.name == q.name)
    && ((p.protocol == q.protocol)
        && (nat_eq p.port q.port
            && (nat_eq p.node_port q.node_port && target_equal p.target_port q.target_port)))

pub port_equal_refl : (p : ServicePort) → port_equal p p ≡ true
port_equal_refl p = rw (
  ==_refl p.name,
  ==_refl p.protocol,
  nat_eq_refl p.port,
  nat_eq_refl p.node_port,
  target_equal_refl p.target_port,
)

abbrev pair_equal : String × String → String × String → Bool
pair_equal (k, v) (l, w) = (k == l) && (v == w)

pub pair_equal_refl : (p : String × String) → pair_equal p p ≡ true
pair_equal_refl (k, v) = rw (==_refl k, ==_refl v)

abbrev labels_equal : Option StringMap → Option StringMap → Bool
labels_equal none none = true
labels_equal (some l) (some m) = lists_equal pair_equal pair_equal_refl l m
labels_equal _ _ = false

pub labels_equal_refl : (l : Option StringMap) → labels_equal l l ≡ true
labels_equal_refl none = refl
labels_equal_refl (some l) = lists_equal_refl pair_equal pair_equal_refl l

abbrev condition_equal : Condition → Condition → Bool
condition_equal a b =
    (a.type == b.type)
    && ((a.status == b.status)
        && ((a.reason == b.reason)
            && ((a.message == b.message) && nat_eq a.last_transition_time b.last_transition_time)))

pub condition_equal_refl : (a : Condition) → condition_equal a a ≡ true
condition_equal_refl a = rw (
  ==_refl a.type,
  ==_refl a.status,
  ==_refl a.reason,
  ==_refl a.message,
  nat_eq_refl a.last_transition_time,
)

abbrev count_equal : Option ℕ → Option ℕ → Bool
count_equal none none = true
count_equal (some a) (some b) = nat_eq a b
count_equal _ _ = false

pub count_equal_refl : (o : Option ℕ) → count_equal o o ≡ true
count_equal_refl none = refl
count_equal_refl (some a) = nat_eq_refl a

abbrev images : DeepEqual (List String)
images = lists ◌==◌ (λ s. ==_refl s)

-- Pods are compared by the images and the arguments of their containers.
abbrev pod_images : PodSpec → List String
pod_images p = container_images (p.init_containers ++ p.containers)

abbrev pods_equal : PodSpec → PodSpec → Bool
pods_equal a b = images.equal (pod_images a) (pod_images b)

abbrev rule_equal : PolicyRule → PolicyRule → Bool
rule_equal a b =
    images.equal a.verbs b.verbs
    && (images.equal a.api_groups b.api_groups && images.equal a.resources b.resources)

pub rule_equal_refl : (a : PolicyRule) → rule_equal a a ≡ true
rule_equal_refl a =
    rw (images.equal_refl a.verbs, images.equal_refl a.api_groups, images.equal_refl a.resources)

abbrev subject_equal : Subject → Subject → Bool
subject_equal a b =
    (a.kind == b.kind)
    && ((a.api_group == b.api_group) && ((a.name == b.name) && (a.namespace == b.namespace)))

pub subject_equal_refl : (a : Subject) → subject_equal a a ≡ true
subject_equal_refl a = rw (==_refl a.kind, ==_refl a.api_group, ==_refl a.name, ==_refl a.namespace)

abbrev ref_equal : RoleRef → RoleRef → Bool
ref_equal a b = (a.api_group == b.api_group) && ((a.kind == b.kind) && (a.name == b.name))

pub ref_equal_refl : (a : RoleRef) → ref_equal a a ≡ true
ref_equal_refl a = rw (==_refl a.api_group, ==_refl a.kind, ==_refl a.name)

abbrev pub semantic : Semantic
semantic = record {
  text = text;
  number = number;
  labels = record { equal = labels_equal; equal_refl = labels_equal_refl };
  string_map = lists pair_equal pair_equal_refl;
  target_port = record { equal = target_equal; equal_refl = target_equal_refl };
  port = record { equal = port_equal; equal_refl = port_equal_refl };
  ports = lists port_equal port_equal_refl;
  conditions = lists condition_equal condition_equal_refl;
  count = record { equal = count_equal; equal_refl = count_equal_refl };
  selector = record { equal = labels_equal; equal_refl = labels_equal_refl };
  pod_spec = record { equal = pods_equal; equal_refl = λ p. images.equal_refl (pod_images p) };
  deployment_spec = record {
    equal = λ a b. count_equal a.replicas b.replicas && pods_equal a.template.spec b.template.spec;
    equal_refl =
        λ a. rw (count_equal_refl a.replicas, images.equal_refl (pod_images a.template.spec));
  };
  daemon_set_spec = record {
    equal = λ a b. pods_equal a.template.spec b.template.spec;
    equal_refl = λ a. images.equal_refl (pod_images a.template.spec);
  };
  rules = lists rule_equal rule_equal_refl;
  subjects = lists subject_equal subject_equal_refl;
  role_ref = record { equal = ref_equal; equal_refl = ref_equal_refl };
}

pub port_equal_sound : (p q : ServicePort) → port_equal p q ≡ true → p ≡ q
port_equal_sound p q h =
    let (a, r1) = and_true (p.name == q.name) _ h in
    let (b, r2) = and_true (p.protocol == q.protocol) _ r1 in
    let (c, r3) = and_true (nat_eq p.port q.port) _ r2 in
    let (d, e) = and_true (nat_eq p.node_port q.node_port) _ r3 in
    cc (
      (eq_iff p.name q.name).0 a,
      (eq_iff p.protocol q.protocol).0 b,
      (nat_eq_iff p.port q.port).0 c,
      (nat_eq_iff p.node_port q.node_port).0 d,
      target_equal_sound p.target_port q.target_port e,
    )
