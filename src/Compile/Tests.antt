-- ===== src/Compile/Tests.antt =====
-- A run of the compiler on a small page.
use pushup.Base.{◌≡◌, true, List, [], All, codes, arith}
use pushup.Gen.Defs.{Print}
use pushup.Parser.Tests.{env_of, page-IsPlainFrom, page-HasStaticTags}
use pushup.Compile.Defs.{up_file_page, compile}
use pushup.Compile.Literals.{written, IsConstant}
use pushup.Compile.Verbatim.{IsCode, compile-IsStatic}

compile-IsStatic_example :
    (prints : List Print) × IsCode up_file_page prints
      (compile (λ p e. true) (env_of []) 4 up_file_page true (codes "<p a=1>hi</p>"))
    × (written prints ≡ codes "<p a=1>hi</p>")
    × All IsConstant prints
compile-IsStatic_example =
    compile-IsStatic (λ p e. true) (env_of []) up_file_page true (codes "<p a=1>hi</p>") 3 4
      (omega arith) page-IsPlainFrom page-HasStaticTags
