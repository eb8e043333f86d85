-- ===== src/Project.antt =====
-- main.go, compiler.go and codegen.go: the files of a project, their paths and their routes.
pub mod Filepath
pub mod Files
pub mod Find
mod Split
mod Clean
mod Rel
mod Walk
mod Found
mod Below
mod Pages
mod Patterns
pub mod Build
mod Program
pub mod PageCode
mod Inits
mod Written
mod BuildDir
mod Outputs
pub mod Command
mod Tests
