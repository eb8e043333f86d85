-- ===== src/Parser/Bind.antt =====
-- How the outcome of a call in the parser carries over to what follows it.
use pushup.Base.{◌≡◌, refl}
use pushup.Parser.State.{Parser, returned, out_of_fuel, M, ◌>>=◌}

pub >>=-returned :
    {A B : Type 0} (m : M A) (f : A → M B) (p : Parser) (a : A) (q : Parser)
    → m p ≡ returned a q
    → (m >>= f) p ≡ f a q
>>=-returned m f p a q e = rw (e, ◌>>=◌) refl

pub >>=-out_of_fuel :
    {A B : Type 0} (m : M A) (f : A → M B) (p : Parser)
    → m p ≡ out_of_fuel
    → (m >>= f) p ≡ out_of_fuel
>>=-out_of_fuel m f p e = rw (e, ◌>>=◌) refl
