-- ===== src/Abstract/Request/Chosen.antt =====
-- The inputs that Validate chooses for a request.

use Prim.Native.String.{String}
use mfp.Abstract.Request.{or_unsupported, choose_inputs, choose_adf, Inputs, ScannerRequest}
use mfp.Abstract.Capabilities.{ScannerCapabilities, InputCapabilities}
use mfp.Go.Int.{int_eq, pos}
use mfp.Base.{
  arith, ◌⊎◌, Option-cases, Settles, ◌≡◌, All, Option, refl, inr, false, some, inl, none, true,
}

-- The scanner has this input, and the request asks for it or leaves it open: by `Input`, and for the two of
-- the document feeder by `ADFMode`.
abbrev pub Asked : ScannerRequest → ScannerCapabilities → InputCapabilities → Type 0
Asked req caps inp =
    ((caps.platen ≡ some inp)
      × ((int_eq req.input (pos 0) ≡ true) ⊎ (int_eq req.input (pos 1) ≡ true)))
    ⊎ (((caps.adf_simplex ≡ some inp)
          × ((int_eq req.input (pos 0) ≡ true)
              ⊎ ((int_eq req.input (pos 2) ≡ true) × (int_eq req.adf_mode (pos 2) ≡ false))))
        ⊎ ((caps.adf_duplex ≡ some inp)
            × ((int_eq req.input (pos 0) ≡ true)
                ⊎ ((int_eq req.input (pos 2) ≡ true) × (int_eq req.adf_mode (pos 1) ≡ false)))))

abbrev pub AllAsked : ScannerRequest → ScannerCapabilities → Inputs → Type 0
AllAsked req caps = All (Asked req caps)

or_unsupported-Asked :
    (P : InputCapabilities → Type 0) (name : String) (o : Option InputCapabilities)
    → ((inp : InputCapabilities) → o ≡ some inp → P inp)
    → Settles (or_unsupported name o) (All P)
or_unsupported-Asked P name none h = tt
or_unsupported-Asked P name (some inp) h = (h inp refl, tt)

module _ (req : ScannerRequest) (caps : ScannerCapabilities) where
  choose_adf-Asked :
      int_eq req.input (pos 2) ≡ true → Settles (choose_adf req caps) (AllAsked req caps)
  unfolding choose_adf
  choose_adf-Asked adf = elim (Option-cases caps.adf_simplex) [
    | inl e ↦ elim (Option-cases caps.adf_duplex) [
      | inl f ↦ rw (choose_adf, e, f) tt
      | inr (d, f) ↦ rw (choose_adf, e, f) (ground arith)
    ]
    | inr (s, e) ↦
        rw (choose_adf, e)
          (ground (arith, or_unsupported-Asked (Asked req caps) "ADFMode" caps.adf_duplex))
  ]

  pub choose_inputs-Asked : Settles (choose_inputs req caps) (AllAsked req caps)
  unfolding choose_inputs
  choose_inputs-Asked = ground (arith, choose_adf-Asked)
