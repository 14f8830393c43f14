-- ===== src/Concepts/Merge/Triples.antt =====
-- The dependencies, tools and peers of a merge, each recorded in `m.owners` and apart from each other.
use tspack.Base.{◌≡◌, ◌≢◌, refl, sym, false, List, String, Memᴰ, arith, str_eq, eq_iff}
use tspack.Concepts.Fragment.{DependencyContribution}
use tspack.Concepts.Merge.{Owners, kind_key}
use tspack.Concepts.Merge.Kinds.{Grows}
use tspack.Concepts.Merge.Records.{IsRecorded, IsApart, Keeps}

pub record Kinds (ds ts ps : List DependencyContribution) (owners : Owners) : Type 0 where
  pub dependency : IsRecorded "dependency" ds owners
  pub tool : IsRecorded "tool" ts owners
  pub peer : IsRecorded "peer" ps owners
  pub dt : IsApart ds ts
  pub dp : IsApart ds ps
  pub tp : IsApart ts ps

IsApart-sym : (ds es : List DependencyContribution) → IsApart ds es → IsApart es ds
IsApart-sym ds es a e d n m same = a d e m n (sym same)

pub Kinds-Grows :
    (ds ts ps : List DependencyContribution) (owners after : Owners)
    → Grows owners after
    → Kinds ds ts ps owners
    → Kinds ds ts ps after
Kinds-Grows ds ts ps owners after g k = record {
  dependency = λ d m. g (kind_key "dependency" d.name) (k.dependency d m);
  tool = λ d m. g (kind_key "tool" d.name) (k.tool d m);
  peer = λ d m. g (kind_key "peer" d.name) (k.peer d m);
  dt = k.dt;
  dp = k.dp;
  tp = k.tp;
}

kinds-differ : (a b : String) → str_eq a b ≡ false → a ≢ b
kinds-differ a b h e = ground (arith, eq_iff a b, e)

pub Kinds-dependency :
    (ds ts ps next : List DependencyContribution) (owners after : Owners)
    → Keeps "dependency" ds next owners after
    → Kinds ds ts ps owners
    → Kinds next ts ps after
Kinds-dependency ds ts ps next owners after keeps k =
    let grown = Kinds-Grows ds ts ps owners after keeps.grown k in
    record {
      dependency = keeps.recorded k.dependency;
      tool = grown.tool;
      peer = grown.peer;
      dt = IsApart-sym ts next (
          keeps.apart "tool" ts (Memᴰ.tail (Memᴰ.head refl)) (kinds-differ "tool" "dependency" refl)
            k.tool (IsApart-sym ds ts k.dt));
      dp = IsApart-sym ps next (
          keeps.apart "peer" ps (Memᴰ.tail (Memᴰ.tail (Memᴰ.head refl)))
            (kinds-differ "peer" "dependency" refl) k.peer (IsApart-sym ds ps k.dp));
      tp = k.tp;
    }

pub Kinds-tool :
    (ds ts ps next : List DependencyContribution) (owners after : Owners)
    → Keeps "tool" ts next owners after
    → Kinds ds ts ps owners
    → Kinds ds next ps after
Kinds-tool ds ts ps next owners after keeps k =
    let grown = Kinds-Grows ds ts ps owners after keeps.grown k in
    record {
      dependency = grown.dependency;
      tool = keeps.recorded k.tool;
      peer = grown.peer;
      dt =
          keeps.apart "dependency" ds (Memᴰ.head refl) (kinds-differ "dependency" "tool" refl)
            k.dependency k.dt;
      dp = k.dp;
      tp = IsApart-sym ps next (
          keeps.apart "peer" ps (Memᴰ.tail (Memᴰ.tail (Memᴰ.head refl)))
            (kinds-differ "peer" "tool" refl) k.peer (IsApart-sym ts ps k.tp));
    }

pub Kinds-peer :
    (ds ts ps next : List DependencyContribution) (owners after : Owners)
    → Keeps "peer" ps next owners after
    → Kinds ds ts ps owners
    → Kinds ds ts next after
Kinds-peer ds ts ps next owners after keeps k =
    let grown = Kinds-Grows ds ts ps owners after keeps.grown k in
    record {
      dependency = grown.dependency;
      tool = grown.tool;
      peer = keeps.recorded k.peer;
      dt = k.dt;
      dp =
          keeps.apart "dependency" ds (Memᴰ.head refl) (kinds-differ "dependency" "peer" refl)
            k.dependency k.dp;
      tp =
          keeps.apart "tool" ts (Memᴰ.tail (Memᴰ.head refl)) (kinds-differ "tool" "peer" refl)
            k.tool k.tp;
    }
