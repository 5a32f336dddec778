-- ===== src/Hwh/Load/Outcome.antt =====
-- What tools/hwh_aximux_dt.py leaves behind, by what it can read.
use aximux.Prelude.{ℕ, List, [], Option, some, ◌≡◌, refl, ◌≢◌, ◌⊎◌, inl, inr}
use aximux.Text.{Text}
use aximux.Hwh.Model.{Mux, Naming}
use aximux.Hwh.Naming.{Regex}
use aximux.Hwh.Xml.{Element}
use aximux.Hwh.Main.{Args, Effect}
use aximux.Hwh.Main.Result.{files, asked, EndsWith, main-EndsWith}
use aximux.Hwh.Load.{Files, Loaded, loaded, exited, raised, load_hwh, load_naming, main_from_paths}

-- The two inputs are not both loaded, no file is written and the exit code is not 0; or they are, and
-- the run ends with the files that are asked for.
abbrev pub Ends : Files → Option Text → Text → Args → List Effect × Option ℕ → Type 0
Ends fs naming_path path args (effects, code) =
    (((naming : Naming) (root : Element)
        → load_naming fs naming_path ≡ loaded naming
        → load_hwh fs path ≡ loaded root
        → ⊥)
      × (code ≢ some 0)
      × (files effects ≡ []))
    ⊎ ((naming : Naming) × (root : Element) × (load_naming fs naming_path ≡ loaded naming)
        × (load_hwh fs path ≡ loaded root)
        × EndsWith (asked args) (effects, code))

-- Whatever the files hold, as long as the values of a naming file have the types that the code
-- expects, and whichever writes fail: if the naming and the document are not both loaded, no file is
-- written and the exit code is not 0. If they are, the tool returns 0 and has
-- written exactly the files that are asked for, in order, or an exception leaves `main`, and the files
-- written are the first few of those asked for; and every text that it writes ends in a newline.
pub main_from_paths-Ends :
    (fs : Files) (re : Regex) (dumps : List Mux → Text) (naming_path : Option Text) (path : Text)
    (args : Args)
    → Ends fs naming_path path args (main_from_paths fs re dumps naming_path path args)
unfolding main_from_paths
main_from_paths-Ends fs re dumps naming_path path args =
    go (load_naming fs naming_path) (load_hwh fs path) refl refl
  where
    go :
        (x : Loaded Naming) (y : Loaded Element)
        → load_naming fs naming_path ≡ x
        → load_hwh fs path ≡ y
        → Ends fs naming_path path args (main_from_paths fs re dumps naming_path path args)
    go (exited t) y e e' =
        rw (main_from_paths, e) (inl ((λ n r h k. absurd (cc h)), (λ p. cc), refl))
    go raised y e e' = rw (main_from_paths, e) (inl ((λ n r h k. absurd (cc h)), (λ p. cc), refl))
    go (loaded naming) (exited t) e e' =
        rw (main_from_paths, e, e') (inl ((λ n r h k. absurd (cc k)), (λ p. cc), refl))
    go (loaded naming) raised e e' =
        rw (main_from_paths, e, e') (inl ((λ n r h k. absurd (cc k)), (λ p. cc), refl))
    go (loaded naming) (loaded root) e e' =
        rw (main_from_paths, e, e')
          (inr (naming, root, refl, refl, main-EndsWith re dumps fs.can_write args naming root))
