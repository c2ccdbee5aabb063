-- ===== src/Context/Loop/Model.antt =====
-- A concrete default loop, which can always be made.
use iojxd.Prelude.{ℕ, suc, ◌≡◌, refl, Bool, true, false}
use iojxd.Context.Loop.{DefaultLoop}

pub record Loop : Type 0 where
  pub exists : Bool
  pub made : ℕ
  pub watched : ℕ
  pub renewed : Bool

abbrev pub make : Bool → Loop → Loop
make true s = s
make false s = record { exists = true; made = suc s.made; watched = 0; renewed = false }

pub exists-make : (b : Bool) (s : Loop) → s.exists ≡ b → (make b s).exists ≡ true
exists-make true s e = e
exists-make false s e = refl

pub watched-make : (s : Loop) → s.exists ≡ false → (make s.exists s).watched ≡ 0
watched-make s e = rw e refl

abbrev pub plain_loop : DefaultLoop
plain_loop = record {
  S = Loop;
  exists = λ s. s.exists;
  made = λ s. s.made;
  watched = λ s. s.watched;
  renewed = λ s. s.renewed;
  obtain = λ s. (true, make s.exists s);
  obtain-existing = λ s e. rw e refl;
  made-obtain = λ s e m. rw e refl;
  exists-obtain = λ s. exists-make s.exists s refl;
  watched-obtain = watched-make;
  destroy = λ s. record s { exists = false };
  exists-destroy = λ s. refl;
  made-destroy = λ s. refl;
  fork = λ s. record s { renewed = true };
  exists-fork = λ s. refl;
  made-fork = λ s. refl;
  watched-fork = λ s. refl;
  renewed-fork = λ s. refl;
}
